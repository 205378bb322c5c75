-- ===== src/Tests/Samples.antt =====
-- A table in play, the released ruleset, and stand-ins for the code outside the engine.
use mahjong_server_bot_zoo.Prelude.{
  ℕ, zero, suc, ◌+◌, ◌≡◌, refl, none, some, List, [], ◌∷◌, true, false, ◌<◌, arith, if◌then◌else◌,
  eqb, All,
}
use mahjong_server_bot_zoo.Prelude.Int.{pos}
use mahjong_server_bot_zoo.Prelude.Counting.{contains, count}
use mahjong_server_bot_zoo.Prelude.Seq.{ok, last?}
use mahjong_server_bot_zoo.Tiles.{
  Tile, tile, tile_le, tile_eq, is_flower, wan, bing, tiao, feng, jian, hua,
}
use mahjong_server_bot_zoo.State.{
  Seat, LastDiscard, RuleSetRef, Phase, PendingClaim, ClaimType, GameState,
}
use mahjong_server_bot_zoo.Rules.{Config, Env, FanLine, resolve_config, load_ruleset}
use mahjong_server_bot_zoo.Transition.Invariant.{
  HandIsSound, TableIsSound, IsSound, IsReady, EachSeat, hand_size,
}
use mahjong_server_bot_zoo.Prelude.Sorting.{is_sorted, sorted_from}
use mathlib.Core.Path.{subst}

abbrev pub mcr : Config
mcr = record {
  id = "mcr-2006";
  fan_cliff = some 8;
  dealer_repeat_on_win = false;
  conversion = none;
}

abbrev eight_fan : FanLine
eight_fan = record { fan_point = 8; cnt = 1; name_en = "All Chows" }

-- The hand with the green dragon, seat 2's, counts eight fan and no other hand wins, and the config hashes to its entry of the manifest.
abbrev pub env : Env
env = record {
  fan_calculator = λ q. if contains (tile jian 2) q.hand then some (eight_fan ∷ []) else none;
  read_config = λ i. some mcr;
  shanten = λ pack hand. some (pos 0);
  config_hash = λ c. "sha256:feb801d0bb3bcf26e80d5a250559789db28d8023ed70cdb2ccb7cda69a5418d0";
  sha256 = λ bytes. bytes;
}

abbrev pub rules : RuleSetRef
rules = record { id = "mcr-2006"; version = 1; config_hash = none }

abbrev pub player : ℕ → List Tile → List Tile → Seat
player i hand discards = record {
  seat = i;
  seat_wind = tile feng (i + 1);
  concealed = hand;
  melds = [];
  discards = discards;
  flowers = [];
  score = pos 0;
}

abbrev pub hand_0 : List Tile
hand_0 =
    tile wan 1
    ∷ tile wan 1
    ∷ tile wan 1
    ∷ tile wan 1
    ∷ tile wan 2
    ∷ tile wan 3
    ∷ tile wan 4
    ∷ tile bing 5
    ∷ tile bing 5
    ∷ tile bing 6
    ∷ tile bing 7
    ∷ tile tiao 1
    ∷ tile tiao 9
    ∷ []

abbrev pub hand_0_drawn : List Tile
hand_0_drawn =
    tile wan 1
    ∷ tile wan 1
    ∷ tile wan 1
    ∷ tile wan 1
    ∷ tile wan 2
    ∷ tile wan 3
    ∷ tile wan 4
    ∷ tile bing 5
    ∷ tile bing 5
    ∷ tile bing 6
    ∷ tile bing 7
    ∷ tile tiao 1
    ∷ tile tiao 9
    ∷ tile feng 1
    ∷ []

abbrev pub hand_1 : List Tile
hand_1 =
    tile wan 2
    ∷ tile wan 3
    ∷ tile wan 5
    ∷ tile wan 6
    ∷ tile bing 1
    ∷ tile bing 2
    ∷ tile bing 3
    ∷ tile bing 4
    ∷ tile tiao 2
    ∷ tile tiao 3
    ∷ tile tiao 4
    ∷ tile tiao 5
    ∷ tile jian 1
    ∷ []

abbrev pub hand_2 : List Tile
hand_2 =
    tile wan 7
    ∷ tile wan 8
    ∷ tile wan 9
    ∷ tile bing 1
    ∷ tile bing 2
    ∷ tile bing 8
    ∷ tile bing 9
    ∷ tile tiao 6
    ∷ tile tiao 7
    ∷ tile tiao 8
    ∷ tile feng 1
    ∷ tile feng 1
    ∷ tile jian 2
    ∷ []

abbrev pub hand_3 : List Tile
hand_3 =
    tile wan 5
    ∷ tile wan 5
    ∷ tile wan 6
    ∷ tile wan 7
    ∷ tile bing 3
    ∷ tile bing 4
    ∷ tile tiao 1
    ∷ tile tiao 2
    ∷ tile tiao 9
    ∷ tile tiao 9
    ∷ tile feng 2
    ∷ tile feng 3
    ∷ tile jian 3
    ∷ []

abbrev table : Phase → List Seat → GameState
table phase seats = record {
  rules = rules;
  round_wind = tile feng 1;
  dealer_seat = 0;
  hand_index = 0;
  turn_index = 0;
  wall = record {
    remaining = tile hua 1 ∷ tile tiao 5 ∷ tile bing 7 ∷ [];
    drawn_count = 54;
    total = 144;
  };
  seats = seats;
  last_discard = none;
  last_drawn = some (record { seat = 0; tile = tile feng 1 });
  pending_claims = [];
  phase = phase;
  current_actor = 0;
  outcome = none;
  rng = record { seed = 0; cursor = 143 };
}

abbrev seats_after : List Tile → List Tile → List Seat
seats_after hand discards =
    player 0 hand discards ∷ player 1 hand_1 [] ∷ player 2 hand_2 [] ∷ player 3 hand_3 [] ∷ []

-- The dealer has drawn an East wind and holds four of a kind.
abbrev pub to_discard : GameState
to_discard = table Phase.discard (seats_after hand_0_drawn [])

-- Between two turns.
abbrev pub between : GameState
between = table Phase.discard (seats_after hand_0 [])

-- The dealer has discarded the East wind, which seat 2 may claim.
abbrev pub discarded : LastDiscard
discarded = record { tile = tile feng 1; seat = 0; turn_index = 1 }

abbrev claim : ClaimType → PendingClaim
claim kind = record { seat = 2; claim = kind; chi_tiles = none }

abbrev pub to_claim : GameState
to_claim = record (table Phase.claim_window (seats_after hand_0 (tile feng 1 ∷ []))) {
  turn_index = 1;
  last_discard = some discarded;
  pending_claims = claim ClaimType.peng ∷ claim ClaimType.hu ∷ [];
  current_actor = 1;
}

player-HandIsSound :
    (i : ℕ) (hand discards : List Tile)
    → i < 4
    → is_sorted tile_le hand ≡ true
    → All (λ t. is_flower t ≡ false) hand
    → HandIsSound (player i hand discards)
player-HandIsSound i hand discards lt ordered plain = record {
  melds = tt;
  wind = (refl, omega arith, omega arith);
  in_order = ordered;
  no_flower = plain;
}

-- What holds of each entry holds at every index.
EachSeat-four :
    (P : ℕ → Seat → Type 0) (a b c d : Seat)
    → P 0 a
    → P 1 b
    → P 2 c
    → P 3 d
    → EachSeat P (a ∷ b ∷ c ∷ d ∷ [])
EachSeat-four P a b c d pa pb pc pd zero p h = let e : a ≡ p = cc in subst (P 0) e pa
EachSeat-four P a b c d pa pb pc pd (suc zero) p h = let e : b ≡ p = cc in subst (P 1) e pb
EachSeat-four P a b c d pa pb pc pd (suc (suc zero)) p h = let e : c ≡ p = cc in subst (P 2) e pc
EachSeat-four P a b c d pa pb pc pd (suc (suc (suc zero))) p h =
    let e : d ≡ p = cc in subst (P 3) e pd
EachSeat-four P a b c d pa pb pc pd (suc (suc (suc (suc i)))) p h = absurd (cc)

hands-HandIsSound :
    (hand discards : List Tile)
    → is_sorted tile_le hand ≡ true
    → All (λ t. is_flower t ≡ false) hand
    → EachSeat (λ i p. HandIsSound p) (seats_after hand discards)
unfolding sorted_from
hands-HandIsSound hand discards ordered plain =
    EachSeat-four (λ i p. HandIsSound p) _ _ _ _
      (player-HandIsSound 0 hand discards (omega arith) ordered plain)
      (player-HandIsSound 1 hand_1 [] (omega arith) refl (ground arith))
      (player-HandIsSound 2 hand_2 [] (omega arith) refl (ground arith))
      (player-HandIsSound 3 hand_3 [] (omega arith) refl (ground arith))

rules-resolve_config : resolve_config env rules ≡ ok mcr
unfolding resolve_config load_ruleset
rules-resolve_config = refl

-- The three tables are sound.
pub to_discard-TableIsSound : TableIsSound env to_discard
unfolding sorted_from
to_discard-TableIsSound = record {
  four = refl;
  config = mcr;
  resolves = rules-resolve_config;
  usable = tt;
  round = (refl, omega arith, omega arith);
  hands = hands-HandIsSound hand_0_drawn [] refl (ground arith);
}

pub to_claim-TableIsSound : TableIsSound env to_claim
unfolding sorted_from
to_claim-TableIsSound = record {
  four = refl;
  config = mcr;
  resolves = rules-resolve_config;
  usable = tt;
  round = (refl, omega arith, omega arith);
  hands = hands-HandIsSound hand_0 (tile feng 1 ∷ []) refl (ground arith);
}

between-TableIsSound : TableIsSound env between
unfolding sorted_from
between-TableIsSound = record {
  four = refl;
  config = mcr;
  resolves = rules-resolve_config;
  usable = tt;
  round = (refl, omega arith, omega arith);
  hands = hands-HandIsSound hand_0 [] refl (ground arith);
}

pub to_discard-IsSound : IsSound env to_discard
to_discard-IsSound = record {
  table = to_discard-TableIsSound;
  sizes =
      EachSeat-four (λ i p. hand_size p ≡ (if eqb i 0 then 14 else 13)) _ _ _ _ refl refl refl refl;
  turn = omega arith;
  drawn = (
    refl,
    EachSeat-four (λ i p. i ≡ 0 → 0 < count (tile feng 1) p.concealed) _ _ _ _ (λ e. omega arith)
        (λ e. cc) (λ e. cc) (λ e. cc),
  );
  pending = tt;
}

pub to_claim-IsSound : IsSound env to_claim
to_claim-IsSound = record {
  table = to_claim-TableIsSound;
  sizes = EachSeat-four (λ i p. hand_size p ≡ 13) _ _ _ _ refl refl refl refl;
  turn = (
    omega arith,
    EachSeat-four (λ i p. i ≡ 0 → last? p.discards ≡ some (tile feng 1)) _ _ _ _ (λ e. refl)
        (λ e. cc) (λ e. cc) (λ e. cc),
  );
  drawn = tt;
  pending = (omega arith, ((omega arith, λ e. cc), ((omega arith, λ e. cc), tt)));
}

pub between-IsReady : IsReady env between
between-IsReady = record {
  table = between-TableIsSound;
  sizes = EachSeat-four (λ i p. hand_size p ≡ 13) _ _ _ _ refl refl refl refl;
}
