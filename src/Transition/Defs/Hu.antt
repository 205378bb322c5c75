-- ===== src/Transition/Defs/Hu.antt =====
-- mahjong/engine/transition/hu.py.
use mahjong_server_bot_zoo.Prelude.{ℕ, Option, none, some, List, [], eqb, set, length}
use mahjong_server_bot_zoo.Prelude.Int.{ℤ, ◌+ℤ◌}
use mahjong_server_bot_zoo.Prelude.Seq.{
  Result, ok, assertion_error, index, or_raise, guard, remove, ◌>>=◌, ◌>>◌,
}
use mahjong_server_bot_zoo.Tiles.{Tile, tile_eq}
use mahjong_server_bot_zoo.State.{Seat, FanEntry, WinType, Terminal, TerminalKind, Phase, GameState}
use mahjong_server_bot_zoo.Rules.{Env, resolve_config, calculate_fan, fan_sum}
use mahjong_server_bot_zoo.Rules.Scoring.{score_delta}

-- How the win came about: the tile, the seat that dealt it in, and the hand without it.
pub record Win : Type 0 where
  pub tile : Tile
  pub deal_in_seat : Option ℕ
  pub win_type : WinType
  pub hand : List Tile

abbrev pub claimed_win : GameState → Seat → Result Win
claimed_win s p = do
  last ← or_raise s.last_discard assertion_error
  ok (record {
    tile = last.tile;
    deal_in_seat = some last.seat;
    win_type = WinType.discard;
    hand = p.concealed;
  })

abbrev pub drawn_win : GameState → ℕ → Seat → Result Win
drawn_win s seat p = do
  drawn ← or_raise s.last_drawn assertion_error
  guard (eqb drawn.seat seat) assertion_error
  hand ← remove drawn.tile p.concealed
  ok (record { tile = drawn.tile; deal_in_seat = none; win_type = WinType.self_draw; hand = hand })

abbrev pub win_in : Phase → GameState → ℕ → Seat → Result Win
win_in Phase.claim_window s seat p = claimed_win s p
win_in _ s seat p = drawn_win s seat p

-- `new["seats"][i]["score"] += score_delta[i]`
abbrev pub credit : ℕ → List ℤ → List Seat → Result (List Seat)
credit i delta seats = do
  d ← index delta i
  p ← index seats i
  ok (set seats i (record p { score = p.score +ℤ d }))

unfoldable pub credit_all : List ℤ → List Seat → Result (List Seat)
credit_all delta seats = do
  seats0 ← credit 0 delta seats
  seats1 ← credit 1 delta seats0
  seats2 ← credit 2 delta seats1
  credit 3 delta seats2

abbrev pub hu_terminal : ℕ → Win → List FanEntry → List ℤ → Terminal
hu_terminal seat w fans delta = record {
  kind = TerminalKind.hu;
  winner = some seat;
  win_tile = some w.tile;
  win_type = some w.win_type;
  deal_in_seat = w.deal_in_seat;
  fan = fans;
  fan_total = fan_sum fans;
  score_delta = delta;
}

module _ (env : Env) where
  unfoldable pub apply_hu : GameState → ℕ → Result GameState
  unfolding credit_all
  apply_hu s seat = do
    config ← resolve_config env s.rules
    p ← index s.seats seat
    w ← win_in s.phase s seat p
    fans ←
        calculate_fan env w.hand p.melds w.tile w.win_type p.seat_wind s.round_wind config
          (length p.flowers)
    delta ← score_delta seat (fan_sum fans) w.win_type w.deal_in_seat config.conversion
    seats ← credit_all delta s.seats
    ok (record s {
      seats = seats;
      outcome = some (hu_terminal seat w fans delta);
      phase = Phase.terminal;
      last_discard = none;
      last_drawn = none;
      pending_claims = [];
    })
