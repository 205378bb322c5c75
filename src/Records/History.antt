-- ===== src/Records/History.antt =====
-- What `replay` of mahjong/records/replay.py yields: the states of a hand, one action apart.
use mahjong_server_bot_zoo.Prelude.{ℕ, ◌≡◌, inl, inr, List, [], ◌∷◌, ◌++◌, eqb, Bool-cases}
use mahjong_server_bot_zoo.Prelude.Seq.{Result, ok, Ensures, Ensures-bind, Ensures-ok, ◌>>=◌}
use mahjong_server_bot_zoo.State.{Action, GameState}
use mahjong_server_bot_zoo.Rules.{Env}
use mahjong_server_bot_zoo.Transition.{apply_action}
use mahjong_server_bot_zoo.Records.Events.{Decision, RecordEvent}
use mahjong_server_bot_zoo.Records.{
  Replaying, event_to_action, only, is_gang, is_own_turn_gang, advance, advance_by, advance_all,
  close_drawn, close_ended, replay_event, replay_events,
}

-- The list leads from the first state to the last: it starts with the first, and each later entry
-- is what an action made of the entry before it.
pub data IsHistory (env : Env) (dealt : GameState) : List GameState → GameState → Type 0 where
  start : IsHistory env dealt (dealt ∷ []) dealt
  applied :
      {ys : List GameState} {s t : GameState} (seat : ℕ) (a : Action)
      → apply_action env s seat a ≡ ok t
      → IsHistory env dealt ys s
      → IsHistory env dealt (ys ++ t ∷ []) t

module _ (env : Env) (dealt : GameState) where
  abbrev Keeps : Replaying → Type 0
  Keeps r = IsHistory env dealt r.yielded r.state

  advance-Keeps :
      (r : Replaying) (seat : ℕ) (a : Action) → Keeps r → Ensures (advance env r seat a) Keeps
  unfolding advance
  advance-Keeps r seat a h =
      Ensures-bind (apply_action env r.state seat a) _ Keeps (λ t e. applied seat a e h)

  advance_by-Keeps : (r : Replaying) (d : Decision) → Keeps r → Ensures (advance_by env r d) Keeps
  unfolding advance_by
  advance_by-Keeps r d h =
      Ensures-bind (event_to_action d) _ Keeps (λ move e. advance-Keeps r move.0 move.1 h)

  -- A call after one that keeps the history.
  then-Keeps :
      (m : Result Replaying) (f : Replaying → Result Replaying)
      → Ensures m Keeps
      → ((r : Replaying) → Keeps r → Ensures (f r) Keeps)
      → Ensures (m >>= f) Keeps
  then-Keeps m f h k = Ensures-bind m f Keeps (λ r e. k r (Ensures-ok m Keeps h e))

  advance_all-Keeps :
      (ds : List Decision) (r : Replaying) → Keeps r → Ensures (advance_all env r ds) Keeps
  unfolding advance_all
  advance_all-Keeps [] r h = h
  advance_all-Keeps (d ∷ ds) r h =
      then-Keeps (advance_by env r d) _ (advance_by-Keeps r d h) (λ r' k. advance_all-Keeps ds r' k)

  close_drawn-Keeps :
      (r : Replaying) (window : List Decision) → Keeps r → Ensures (close_drawn env r window) Keeps
  close_drawn-Keeps r [] h = h
  close_drawn-Keeps r (d ∷ ds) h =
      Ensures-bind (only (λ c. is_gang c.decision) (d ∷ ds)) _ Keeps
        λ winner e. then-Keeps (advance_by env r winner) _ (advance_by-Keeps r winner h) (λ r' k. k)

  close_ended-Keeps :
      (r : Replaying) (winners : List ℕ) → Keeps r → Ensures (close_ended env r winners) Keeps
  close_ended-Keeps r [] h = h
  close_ended-Keeps r (winner ∷ others) h =
      then-Keeps (advance env r winner Action.hu) _ (advance-Keeps r winner Action.hu h) (λ r' k. k)

  replay_event-Keeps :
      (r : Replaying) (e : RecordEvent) → Keeps r → Ensures (replay_event env r e) Keeps
  unfolding replay_event
  replay_event-Keeps r (RecordEvent.discard _ seat t from_hand) h =
      advance-Keeps r seat (Action.play t) h
  replay_event-Keeps r (RecordEvent.claim_decision _ d) h = elim (Bool-cases (is_own_turn_gang d)) [
    | inl at_once ↦ rw at_once (advance_by-Keeps r d h)
    | inr later ↦ rw later h
  ]
  replay_event-Keeps r (RecordEvent.draw _ seat t) h = close_drawn-Keeps r r.window h
  replay_event-Keeps r (RecordEvent.passed _) h =
      then-Keeps (advance_all env r r.window) _ (advance_all-Keeps r.window r h) (λ r' k. k)
  replay_event-Keeps r (RecordEvent.claimed _ c) h =
      Ensures-bind (only (λ d. eqb d.seat c.winning_seat) r.window) _ Keeps
        λ winner e. then-Keeps (advance_by env r winner) _ (advance_by-Keeps r winner h) (λ r' k. k)
  replay_event-Keeps r (RecordEvent.hand_end _ x) h = close_ended-Keeps r x.winner h
  replay_event-Keeps r event h = h

  -- Whatever the events, what has been yielded stays a history of the state.
  pub replay_events-Keeps :
      (events : List RecordEvent) (r : Replaying)
      → Keeps r
      → Ensures (replay_events env r events) Keeps
  unfolding replay_events
  replay_events-Keeps [] r h = h
  replay_events-Keeps (e ∷ es) r h =
      then-Keeps (replay_event env r e) _ (replay_event-Keeps r e h)
        (λ r' k. replay_events-Keeps es r' k)
