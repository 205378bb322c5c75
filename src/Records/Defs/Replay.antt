-- ===== src/Records/Defs/Replay.antt =====
-- mahjong/records/replay.py: the states of a hand from its record.
use mahjong_server_bot_zoo.Prelude.{
  ℕ, Bool, true, false, Option, none, some, List, [], ◌∷◌, ◌++◌, eqb, if◌then◌else◌, ◌==◌,
}
use mahjong_server_bot_zoo.Prelude.Seq.{
  Result, ok, err, value_error, key_error, index_error, or_raise, ◌>>=◌,
}
use mahjong_server_bot_zoo.Tiles.{tile, tile_eq, feng}
use mahjong_server_bot_zoo.State.{Action, GangKind, GameState}
use mahjong_server_bot_zoo.Rules.{Env}
use mahjong_server_bot_zoo.Deal.{initial_state}
use mahjong_server_bot_zoo.Transition.{apply_action}
use mahjong_server_bot_zoo.Records.Events.{ActionType, Decision, HeaderSeat, RecordEvent}

-- `_event_to_action` of a CLAIM_DECISION; `event[key]` raises KeyError.
unfoldable pub event_to_action : Decision → Result (ℕ × Action)
event_to_action d = elim d.decision [
  | ActionType.pass ↦ ok (d.seat, Action.pass)
  | ActionType.chi ↦ or_raise d.chi_tiles key_error >>= λ ts. ok (d.seat, Action.chi ts)
  | ActionType.peng ↦ or_raise d.tile key_error >>= λ t. ok (d.seat, Action.peng t)
  | ActionType.gang ↦ or_raise d.tile key_error >>= λ t.
      or_raise d.kind key_error >>= λ kind. ok (d.seat, Action.gang t kind)
  | ActionType.hu ↦ ok (d.seat, Action.hu)
  | ActionType.play ↦ err value_error
]

abbrev pub is_own_turn_kind : Option GangKind → Bool
is_own_turn_kind none = false
is_own_turn_kind (some GangKind.exposed) = false
is_own_turn_kind (some kind) = true

abbrev pub is_gang : ActionType → Bool
is_gang ActionType.gang = true
is_gang decision = false

-- A concealed or added kong, which is applied at once.
abbrev pub is_own_turn_gang : Decision → Bool
is_own_turn_gang d = if is_gang d.decision then is_own_turn_kind d.kind else false

-- `_only`: the first match.
abbrev pub only : (Decision → Bool) → List Decision → Result Decision
only matches [] = err value_error
only matches (d ∷ ds) = let rest = only matches ds in if matches d then ok d else rest

-- The local variables of `replay`, and what it has yielded.
pub record Replaying : Type 0 where
  pub state : GameState
  pub window : List Decision
  pub yielded : List GameState

abbrev pub closed : Replaying → Replaying
closed r = record r { window = [] }

module _ (env : Env) where
  -- `state = apply_action(state, seat, action)`, then `yield state`
  unfoldable pub advance : Replaying → ℕ → Action → Result Replaying
  advance r seat a = apply_action env r.state seat a >>= λ t.
      ok (record r { state = t; yielded = r.yielded ++ t ∷ [] })

  unfoldable pub advance_by : Replaying → Decision → Result Replaying
  unfolding advance
  advance_by r d = event_to_action d >>= λ move. advance r move.0 move.1

  unfoldable pub advance_all : Replaying → List Decision → Result Replaying
  unfolding advance_by
  advance_all r [] = ok r
  advance_all r (d ∷ ds) = advance_by r d >>= λ r'. advance_all r' ds

  abbrev pub close_drawn : Replaying → List Decision → Result Replaying
  close_drawn r [] = ok r
  close_drawn r (d ∷ ds) = only (λ c. is_gang c.decision) (d ∷ ds) >>= λ winner.
      advance_by r winner >>= λ r'. ok (closed r')

  abbrev pub close_ended : Replaying → List ℕ → Result Replaying
  close_ended r [] = ok (closed r)
  close_ended r (winner ∷ others) = advance r winner Action.hu >>= λ r'. ok (closed r')

  -- One pass of the loop.
  unfoldable pub replay_event : Replaying → RecordEvent → Result Replaying
  unfolding advance advance_by advance_all
  replay_event r (RecordEvent.discard _ seat t from_hand) = advance r seat (Action.play t)
  replay_event r (RecordEvent.claim_decision _ d) =
      if is_own_turn_gang d then advance_by r d else ok (record r { window = r.window ++ d ∷ [] })
  replay_event r (RecordEvent.draw _ seat t) = close_drawn r r.window
  replay_event r (RecordEvent.passed _) = advance_all r r.window >>= λ r'. ok (closed r')
  replay_event r (RecordEvent.claimed _ c) =
      only (λ d. eqb d.seat c.winning_seat) r.window >>= λ winner.
      advance_by r winner >>= λ r'. ok (closed r')
  replay_event r (RecordEvent.hand_end _ h) = close_ended r h.winner
  replay_event r event = ok r

  unfoldable pub replay_events : Replaying → List RecordEvent → Result Replaying
  unfolding replay_event
  replay_events r [] = ok r
  replay_events r (e ∷ es) = replay_event r e >>= λ r'. replay_events r' es

-- The loop over the seats of the header.
unfoldable pub dealer_seat_from : List HeaderSeat → ℕ
dealer_seat_from [] = 0
dealer_seat_from (h ∷ hs) =
    let later = dealer_seat_from hs in
    elim h.wind [ none ↦ later | some wind ↦ if wind == tile feng 1 then h.seat else later ]

-- The first state, for the first event of the record.
unfoldable pub replay_header : Env → ℕ → RecordEvent → Result GameState
unfolding dealer_seat_from
replay_header env fuel (RecordEvent.header h) =
    initial_state env fuel h.rules h.seed (dealer_seat_from h.seats) 0
replay_header env fuel event = err key_error

-- `fuel` is for the sampling of the shuffle.
unfoldable pub replay : Env → ℕ → List RecordEvent → Result (List GameState)
unfolding replay_header replay_events
replay env fuel [] = err index_error
replay env fuel (first ∷ events) = replay_header env fuel first >>= λ s.
    replay_events env (record { state = s; window = []; yielded = s ∷ [] }) events >>= λ r.
    ok r.yielded
