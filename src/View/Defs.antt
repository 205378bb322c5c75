-- ===== src/View/Defs.antt =====
-- `project` of mahjong/engine/state.py and the view types of mahjong/engine/types.py.
use mahjong_server_bot_zoo.Prelude.{
  ℕ, ◌+◌, Bool, false, Option, none, some, List, [], ◌∷◌, map, leb, eqb, if◌then◌else◌, length,
  keep,
}
use mahjong_server_bot_zoo.Prelude.Int.{ℤ}
use mahjong_server_bot_zoo.Prelude.Seq.{Result, ok, err, value_error}
use mahjong_server_bot_zoo.Tiles.{Tile}
use mahjong_server_bot_zoo.State.{
  RuleSetRef, MeldType, Meld, Seat, LastDiscard, LastDrawn, PendingClaim, Terminal, Phase,
  GameState,
}

-- A concealed kong of another seat is `hidden`: its tiles are dropped.
pub data MeldView : Type 0 where
  shown : Meld → MeldView
  hidden : Option Tile → ℕ → MeldView

pub record SeatViewOpponent : Type 0 where
  pub seat : ℕ
  pub seat_wind : Tile
  pub concealed_count : ℕ
  pub melds : List MeldView
  pub discards : List Tile
  pub flowers : List Tile
  pub score : ℤ

pub data ViewedSeat : Type 0 where
  own : Seat → ViewedSeat
  opponent : SeatViewOpponent → ViewedSeat

pub record WallView : Type 0 where
  pub remaining_count : ℕ
  pub drawn_count : ℕ
  pub total : ℕ

pub record LastDrawnView : Type 0 where
  pub seat : ℕ
  pub tile : Option Tile

pub record FinalHand : Type 0 where
  pub seat : ℕ
  pub concealed : List Tile
  pub melds : List Meld
  pub flowers : List Tile

pub record TerminalView : Type 0 where
  pub terminal : Terminal
  pub final_hands : List FinalHand

-- The key `last_drawn` is absent from the view of a spectator: `none`.
pub record SeatView : Type 0 where
  pub rules : RuleSetRef
  pub round_wind : Tile
  pub dealer_seat : ℕ
  pub hand_index : ℕ
  pub turn_index : ℕ
  pub wall : WallView
  pub seats : List ViewedSeat
  pub last_discard : Option LastDiscard
  pub pending_claims : List PendingClaim
  pub phase : Phase
  pub current_actor : ℕ
  pub outcome : Option TerminalView
  pub last_drawn : Option (Option LastDrawnView)

abbrev pub mask_as : MeldType → Meld → MeldView
mask_as MeldType.gang_concealed m = hidden m.called_tile m.called_from_seat
mask_as _ m = shown m

abbrev pub mask_concealed_kong_for_opponent : Meld → MeldView
mask_concealed_kong_for_opponent m = mask_as m.kind m

abbrev pub final_hand : Seat → FinalHand
final_hand p = record {
  seat = p.seat;
  concealed = p.concealed;
  melds = p.melds;
  flowers = p.flowers;
}

abbrev pub final_hands_view : GameState → List FinalHand
final_hands_view s = map final_hand s.seats

abbrev pub opponent_view : Seat → SeatViewOpponent
opponent_view p = record {
  seat = p.seat;
  seat_wind = p.seat_wind;
  concealed_count = length p.concealed;
  melds = map mask_concealed_kong_for_opponent p.melds;
  discards = p.discards;
  flowers = p.flowers;
  score = p.score;
}

-- `seat is not None and i == seat`
abbrev pub is_viewer : Option ℕ → ℕ → Bool
is_viewer none i = false
is_viewer (some seat) i = eqb i seat

-- The loop over the seats, from number `i` on.
abbrev pub seats_view : Option ℕ → ℕ → List Seat → List ViewedSeat
seats_view viewer i [] = []
seats_view viewer i (p ∷ ps) =
    (if is_viewer viewer i then own p else opponent (opponent_view p))
    ∷ seats_view viewer (i + 1) ps

abbrev pub own_claims : Option ℕ → List PendingClaim → List PendingClaim
own_claims none claims = []
own_claims (some seat) claims = keep (λ c. eqb c.seat seat) claims

abbrev pub last_drawn_view : Option ℕ → Option LastDrawn → Option (Option LastDrawnView)
last_drawn_view none drawn = none
last_drawn_view (some seat) none = some none
last_drawn_view (some seat) (some d) =
    some (some (record { seat = d.seat; tile = if eqb d.seat seat then some d.tile else none }))

abbrev pub terminal_view : GameState → Option TerminalView
terminal_view s = elim s.outcome [
  | none ↦ none
  | some t ↦ some (record { terminal = t; final_hands = final_hands_view s })
]

abbrev pub view_of : GameState → Option ℕ → SeatView
view_of s viewer = record {
  rules = s.rules;
  round_wind = s.round_wind;
  dealer_seat = s.dealer_seat;
  hand_index = s.hand_index;
  turn_index = s.turn_index;
  wall = record {
    remaining_count = length s.wall.remaining;
    drawn_count = s.wall.drawn_count;
    total = s.wall.total;
  };
  seats = seats_view viewer 0 s.seats;
  last_discard = s.last_discard;
  pending_claims = own_claims viewer s.pending_claims;
  phase = s.phase;
  current_actor = s.current_actor;
  outcome = terminal_view s;
  last_drawn = last_drawn_view viewer s.last_drawn;
}

unfoldable pub project : GameState → Option ℕ → Result SeatView
project s none = ok (view_of s none)
project s (some seat) = if leb 4 seat then err value_error else ok (view_of s (some seat))
