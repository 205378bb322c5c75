-- ===== src/Records/Roundtrip.antt =====
-- replay.py reads back what diff.py of mahjong/records/ wrote, action by action.
use mahjong_server_bot_zoo.Prelude.{
  ℕ, ◌≡◌, ◌≢◌, refl, ◌∙◌, Option, none, some, List, [], ◌∷◌, ◌++◌, arith,
}
use mahjong_server_bot_zoo.Prelude.Seq.{
  Result, ok, assertion_error, or_raise, Ensures, Ensures-bind, Ensures-ok, ◌>>=◌,
}
use mahjong_server_bot_zoo.Tiles.{Tile}
use mahjong_server_bot_zoo.State.{Action, GangKind, Seat, Phase, Terminal, GameState}
use mahjong_server_bot_zoo.Rules.{Env}
use mahjong_server_bot_zoo.Legality.Justified.{MayDiscard}
use mahjong_server_bot_zoo.Transition.{
  draw_terminal, dispatch, apply_action, apply_play, apply_gang, apply_hu,
}
use mahjong_server_bot_zoo.Transition.Invariant.{IsSound}
use mahjong_server_bot_zoo.Transition.Correct.{Permitted, on_turn, on_claim}
use mahjong_server_bot_zoo.Transition.Applied.{apply_action-Applied}
use mahjong_server_bot_zoo.Records.Events.{RecordEvent, Decision}
use mahjong_server_bot_zoo.Records.{
  decision_of, window_or_draw, discard_event, claim_decision_event, claim_window_event,
  opportunities_on, hand_end_event, draw_or_end, diff_to_events, event_to_action, Replaying,
  advance, advance_by, replay_event, replay_events,
}
use mahjong_server_bot_zoo.Records.Outcome.{
  EndsInDraw, WonBy, apply_play-EndsInDraw, apply_gang-EndsInDraw, apply_hu-WonBy,
}

-- A decision that is no PLAY is read back as the action that it was written for.
pub event_to_action-decision_of :
    (seat : ℕ) (a : Action)
    → ((t : _) → a ≢ Action.play t)
    → event_to_action (decision_of seat a) ≡ ok (seat, a)
unfolding event_to_action
event_to_action-decision_of seat (Action.play t) ne = absurd (ne t refl)
event_to_action-decision_of seat a ne = refl

or_raise_winner :
    (outcome : Option Terminal) {o : Terminal}
    → outcome ≡ some o
    → (u : Terminal) → or_raise outcome assertion_error ≡ ok u
    → u.winner ≡ o.winner
or_raise_winner none e u k = absurd (cc)
or_raise_winner (some x) e u k = cc

-- Between two windows.
abbrev pub at : GameState → List GameState → Replaying
at s ys = record { state = s; window = []; yielded = ys }

module _ (env : Env) where
  pub advance-eq :
      (s t : GameState) (window : List Decision) (ys : List GameState) (seat : ℕ) (a : Action)
      → apply_action env s seat a ≡ ok t
      → advance env (record { state = s; window = window; yielded = ys }) seat a
        ≡ ok (record { state = t; window = window; yielded = ys ++ t ∷ [] })
  unfolding advance
  advance-eq s t window ys seat a e = rw e refl

  pub draw_or_end-informs :
      (before t : GameState) (phase : Phase) (ys : List GameState)
      → (phase ≡ Phase.terminal → t.outcome ≡ some draw_terminal)
      → Ensures (draw_or_end phase before t) (λ es. replay_events env (at t ys) es ≡ ok (at t ys))
  unfolding draw_or_end hand_end_event replay_events replay_event
  draw_or_end-informs before t Phase.discard ys ends = ground arith
  draw_or_end-informs before t Phase.terminal ys ends = rw (ends refl) refl
  draw_or_end-informs before t phase ys ends = refl

  window_or_draw-informs :
      (before t : GameState) (phase : Phase) (ys : List GameState)
      → (phase ≡ Phase.terminal → t.outcome ≡ some draw_terminal)
      → Ensures
          (window_or_draw env phase before t)
          (λ es. replay_events env (at t ys) es ≡ ok (at t ys))
  unfolding replay_events replay_event
  window_or_draw-informs before t Phase.claim_window ys ends =
      Ensures-bind (claim_window_event env t) (λ e. ok (e ∷ []))
        (λ es. replay_events env (at t ys) es ≡ ok (at t ys))
        λ e is.
          Ensures-ok (claim_window_event env t)
            (λ e. replay_events env (at t ys) (e ∷ []) ≡ ok (at t ys))
            (Ensures-bind (opportunities_on env t.last_discard t) _
              (λ e. replay_events env (at t ys) (e ∷ []) ≡ ok (at t ys)) (λ os _. refl))
            is
  window_or_draw-informs before t phase ys ends = draw_or_end-informs before t phase ys ends

  -- The events of an own turn, and the rest of a claim: replaying them applies the action once.
  abbrev pub Replays : Replaying → GameState → List GameState → List RecordEvent → Type 0
  Replays r t ys events = replay_events env r events ≡ ok (at t (ys ++ t ∷ []))

  module _ (s t : GameState) (seat : ℕ) (ys : List GameState) where
    pub then_informs :
        (m : Result (List RecordEvent)) (r : Replaying) (f : List RecordEvent → List RecordEvent)
        → Ensures m (λ es. replay_events env (at t (ys ++ t ∷ [])) es ≡ ok (at t (ys ++ t ∷ [])))
        → ((es : List RecordEvent)
            → replay_events env r (f es) ≡ replay_events env (at t (ys ++ t ∷ [])) es)
        → Ensures (m >>= λ es. ok (f es)) (Replays r t ys)
    then_informs m r f informs reads =
        Ensures-bind m _ (Replays r t ys) (λ es e. reads es ∙ Ensures-ok m _ informs e)

    play-Replays :
        (tile : _) (phase : Phase)
        → apply_action env s seat (Action.play tile) ≡ ok t
        → (phase ≡ Phase.terminal → t.outcome ≡ some draw_terminal)
        → Ensures
            (window_or_draw env phase s t >>= λ es. ok (discard_event s t seat tile ∷ es))
            (Replays (at s ys) t ys)
    unfolding replay_events replay_event
    play-Replays tile phase e ends =
        then_informs (window_or_draw env phase s t) (at s ys)
          (λ es. discard_event s t seat tile ∷ es)
          (window_or_draw-informs s t phase (ys ++ t ∷ []) ends)
          (λ es. rw (advance-eq s t [] ys seat (Action.play tile) e) refl)

    kong-Replays :
        (tile : _) (kind : GangKind)
        → kind ≢ GangKind.exposed
        → apply_action env s seat (Action.gang tile kind) ≡ ok t
        → EndsInDraw t
        → Ensures (diff_to_events env s seat (Action.gang tile kind) t) (Replays (at s ys) t ys)
    unfolding diff_to_events replay_events replay_event advance_by event_to_action
    kong-Replays tile GangKind.exposed own e ends = absurd (own refl)
    kong-Replays tile kind own e ends =
        then_informs (draw_or_end t.phase s t) (at s ys)
          (λ es. claim_decision_event t seat (Action.gang tile kind) ∷ es)
          (draw_or_end-informs s t t.phase (ys ++ t ∷ []) ends)
          (λ es. rw (advance-eq s t [] ys seat (Action.gang tile kind) e) refl)

    -- A win closes any window.
    pub hu-Replays :
        (window : List Decision)
        → apply_action env s seat Action.hu ≡ ok t
        → WonBy seat t
        → Ensures
            (diff_to_events env s seat Action.hu t)
            (Replays (record { state = s; window = window; yielded = ys }) t ys)
    unfolding diff_to_events hand_end_event replay_events replay_event
    hu-Replays window e (o, ended, won) =
        let r : Replaying = record { state = s; window = window; yielded = ys } in
        Ensures-bind (hand_end_event t) (λ end. ok (end ∷ [])) (Replays r t ys)
          λ end is.
            Ensures-ok (hand_end_event t) (λ end. Replays r t ys (end ∷ []))
              (Ensures-bind (or_raise t.outcome assertion_error) _
                (λ end. Replays r t ys (end ∷ []))
                λ u same.
                  let winner : u.winner ≡ some seat =
                    or_raise_winner t.outcome ended u same ∙ won in
                  rw winner (rw (advance-eq s t window ys seat Action.hu e) refl))
              is

    own_kind :
        (tile : Tile) (kind : GangKind) (p : Seat)
        → MayDiscard env s seat p (Action.gang tile kind)
        → kind ≢ GangKind.exposed
    own_kind tile GangKind.exposed p m e = m
    own_kind tile kind p m e = cc

    -- What was applied, by the kinds of action that a turn permits.
    turn_of :
        (a : Action) (p : Seat)
        → s.phase ≡ Phase.discard
        → apply_action env s seat a ≡ ok t
        → dispatch env s seat a ≡ ok t
        → Permitted env s seat p a
        → Ensures (diff_to_events env s seat a t) (Replays (at s ys) t ys)
    unfolding diff_to_events
    turn_of (Action.play tile) p ph e went h = play-Replays tile t.phase e (
        Ensures-ok (apply_play env s seat tile) EndsInDraw (apply_play-EndsInDraw env s seat tile)
          went)
    turn_of (Action.gang tile kind) p ph e went (on_turn _ mine m) =
        kong-Replays tile kind (own_kind tile kind p m) e (
          Ensures-ok (apply_gang s seat tile kind) EndsInDraw
            (apply_gang-EndsInDraw s seat tile kind) went)
    turn_of Action.hu p ph e went h =
        hu-Replays [] e
          (Ensures-ok (apply_hu env s seat) (WonBy seat) (apply_hu-WonBy env s seat) went)
    turn_of Action.pass p ph e went (on_turn _ mine m) = absurd m
    turn_of (Action.peng tile) p ph e went (on_turn _ mine m) = absurd m
    turn_of (Action.chi tiles) p ph e went (on_turn _ mine m) = absurd m
    turn_of a p ph e went (on_claim last window opened other m) = absurd (cc)

-- On a sound state in the discard phase, replaying the events that `diff_to_events` gives for an
-- action that was applied goes from the state before it to the state after it, and yields the
-- state after it and no other.
pub diff_to_events-replays :
    (env : Env) (s t : GameState) (seat : ℕ) (a : Action) (events : List RecordEvent)
    (ys : List GameState)
    → IsSound env s
    → s.phase ≡ Phase.discard
    → apply_action env s seat a ≡ ok t
    → diff_to_events env s seat a t ≡ ok events
    → replay_events env (at s ys) events ≡ ok (at t (ys ++ t ∷ []))
diff_to_events-replays env s t seat a events ys sound ph e written =
    let h = apply_action-Applied env s seat a t sound e in
    Ensures-ok (diff_to_events env s seat a t) (Replays env (at s ys) t ys)
      (turn_of env s t seat ys a h.player ph e h.dispatched h.permitted) written
