-- ===== src/Deal/Defs.antt =====
-- `initial_state` of mahjong/engine/state.py: dealing a hand.
use mahjong_server_bot_zoo.Prelude.{
  ℕ, zero, suc, ◌+◌, ◌-◌, ◌%◌, ◌^◌, none, some, List, [], ◌∷◌, ◌++◌, leb, if◌then◌else◌, set,
}
use mahjong_server_bot_zoo.Prelude.Int.{pos}
use mahjong_server_bot_zoo.Prelude.Seq.{
  Result, ok, err, value_error, index_error, index, or_raise, ◌>>=◌,
}
use mahjong_server_bot_zoo.Prelude.Sorting.{sort}
use mahjong_server_bot_zoo.Tiles.{Tile, tile, feng, tile_le}
use mahjong_server_bot_zoo.State.{RuleSetRef, Seat, Phase, GameState}
use mahjong_server_bot_zoo.Rules.{Env, load_ruleset}
use mahjong_server_bot_zoo.Rng.{shuffled_wall}
use mahjong_server_bot_zoo.Transition.{draw_live}

-- One entry of the lists `concealed` and `flowers`.
pub record Hand : Type 0 where
  pub concealed : List Tile
  pub flowers : List Tile

-- The local variables of the deal; `wall` is what lies behind `wall_pos`.
pub record Deal : Type 0 where
  pub wall : List Tile
  pub wall_pos : ℕ
  pub hands : List Hand

abbrev pub empty_hand : Hand
empty_hand = record { concealed = []; flowers = [] }

unfoldable pub draw_one : Deal → ℕ → Result (Deal × Tile)
draw_one d seat_idx = do
  h ← index d.hands seat_idx
  let drawn = draw_live d.wall h.flowers d.wall_pos
  t ← or_raise drawn.live index_error
  let held : Hand = record { concealed = h.concealed ++ t ∷ []; flowers = drawn.flowers }
  ok (
    record { wall = drawn.rest; wall_pos = drawn.drawn_count; hands = set d.hands seat_idx held },
    t,
  )

-- `for s in range(4): draw_one(s)`
unfoldable pub deal_round : Deal → Result Deal
unfolding draw_one
deal_round d = draw_one d 0 >>= λ d0.
    draw_one d0.0 1 >>= λ d1. draw_one d1.0 2 >>= λ d2. draw_one d2.0 3 >>= λ d3. ok d3.0

unfoldable pub deal_rounds : ℕ → Deal → Result Deal
unfolding deal_round
deal_rounds zero d = ok d
deal_rounds (suc n) d = deal_round d >>= λ d'. deal_rounds n d'

-- `(s - dealer_seat) % 4 + 1`, of which Python's remainder is never negative.
abbrev pub wind_rank : ℕ → ℕ → ℕ
wind_rank dealer_seat s = (s + 4 - dealer_seat) % 4 + 1

abbrev pub fresh_seat : ℕ → ℕ → Hand → Seat
fresh_seat dealer_seat s h = record {
  seat = s;
  seat_wind = tile feng (wind_rank dealer_seat s);
  concealed = sort tile_le h.concealed;
  melds = [];
  discards = [];
  flowers = h.flowers;
  score = pos 0;
}

abbrev pub fresh_seats : ℕ → ℕ → List Hand → List Seat
fresh_seats dealer_seat s [] = []
fresh_seats dealer_seat s (h ∷ hs) = fresh_seat dealer_seat s h ∷ fresh_seats dealer_seat (s + 1) hs

abbrev pub fresh_state : RuleSetRef → ℕ → ℕ → ℕ → ℕ → Deal → Tile → GameState
fresh_state rules seed dealer_seat hand_index cursor d drawn = record {
  rules = rules;
  round_wind = tile feng 1;
  dealer_seat = dealer_seat;
  hand_index = hand_index;
  turn_index = 0;
  wall = record { remaining = d.wall; drawn_count = d.wall_pos; total = 144 };
  seats = fresh_seats dealer_seat 0 d.hands;
  last_discard = none;
  last_drawn = some (record { seat = dealer_seat; tile = drawn });
  pending_claims = [];
  phase = Phase.discard;
  current_actor = dealer_seat;
  outcome = none;
  rng = record { seed = seed; cursor = cursor };
}

-- Before the deal.
abbrev pub undealt : List Tile → Deal
undealt wall = record {
  wall = wall;
  wall_pos = 0;
  hands = empty_hand ∷ empty_hand ∷ empty_hand ∷ empty_hand ∷ [];
}

-- The dealing itself, on a wall: 13 rounds and the dealer's first draw.
unfoldable pub deal_hands : List Tile → ℕ → Result (Deal × Tile)
unfolding deal_rounds draw_one
deal_hands wall dealer_seat = deal_rounds 13 (undealt wall) >>= λ d. draw_one d dealer_seat

-- `fuel` is for the sampling of the shuffle.
unfoldable pub initial_state : Env → ℕ → RuleSetRef → ℕ → ℕ → ℕ → Result GameState
unfolding deal_hands
initial_state env fuel ref seed dealer_seat hand_index =
    if leb (2 ^ 128) seed
    then err value_error
    else if leb 4 dealer_seat
    then err value_error
    else (do
      config ← load_ruleset env ref
      shuffled ← shuffled_wall env fuel seed
      dealt ← deal_hands shuffled.0 dealer_seat
      let rules : RuleSetRef = record {
        id = ref.id;
        version = ref.version;
        config_hash = some (env.config_hash config);
      }
      ok (fresh_state rules seed dealer_seat hand_index shuffled.1 dealt.0 dealt.1))
