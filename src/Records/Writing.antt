-- ===== src/Records/Writing.antt =====
-- `diff_to_events` of mahjong/records/diff.py raises nothing after an action that was applied.
use mahjong_server_bot_zoo.Prelude.{
  ℕ, ◌<◌, ◌≡◌, inl, inr, refl, Option, none, some, List, [], ◌∷◌, arith, eqb, get_elem?-total, All,
  Bool-cases,
}
use mahjong_server_bot_zoo.Prelude.Seq.{
  Result, ok, assertion_error, or_raise, or_raise-eq, Returns, Returns-bind, Returns-imp,
  Ensures-ok,
}
use mahjong_server_bot_zoo.State.{Action, Seat, LastDiscard, Phase, Terminal, GameState}
use mahjong_server_bot_zoo.Rules.{Env}
use mahjong_server_bot_zoo.Legality.{claim_actions}
use mahjong_server_bot_zoo.Legality.Justified.{claim_actions-All}
use mahjong_server_bot_zoo.Transition.{
  draw_terminal, dispatch, apply_action, apply_play, apply_pass, apply_gang, apply_hu,
}
use mahjong_server_bot_zoo.Transition.Invariant.{TableIsSound, IsSound}
use mahjong_server_bot_zoo.Transition.Correct.{Permitted, on_turn, on_claim}
use mahjong_server_bot_zoo.Transition.Applied.{apply_action-Applied}
use mahjong_server_bot_zoo.Records.Events.{RecordEvent}
use mahjong_server_bot_zoo.Records.{
  opportunities_at, opportunities_on, claim_window_event, hand_end_event, draw_or_end,
  window_or_draw, window_close, diff_to_events,
}
use mahjong_server_bot_zoo.Records.Outcome.{
  EndsInDraw, WonBy, apply_play-EndsInDraw, apply_pass-EndsInDraw, apply_gang-EndsInDraw,
  apply_hu-WonBy,
}

abbrev Writes : Result (List RecordEvent) → Type 0
Writes m = Returns m (λ es. Unit)

module _ (env : Env) (t : GameState) where
  opportunities_at-Returns :
      (last : LastDiscard) (seats : List ℕ)
      → t.last_discard ≡ some last
      → TableIsSound env t
      → All (λ i. i < 4) seats
      → Returns (opportunities_at env t last seats) (λ os. Unit)
  unfolding opportunities_at
  opportunities_at-Returns last [] opened table h = tt
  opportunities_at-Returns last (i ∷ seats) opened table h = elim (Bool-cases (eqb i last.seat)) [
    | inl own ↦ rw own (opportunities_at-Returns last seats opened table h.1)
    | inr other ↦
        let (p, found) = get_elem?-total t.seats i (rw table.four h.0) in
        rw other (
          Returns-bind (claim_actions env t i) _ (λ l. Unit) _
            (Returns-imp (claim_actions env t i) _ (λ l. Unit) (λ l k. tt)
              (claim_actions-All env t i p last table opened found))
            λ l _.
              Returns-bind (opportunities_at env t last seats) _ (λ os. Unit) _
                (opportunities_at-Returns last seats opened table h.1) (λ os _. tt))
  ]

  opportunities_on-Returns :
      (o : Option LastDiscard)
      → t.last_discard ≡ o
      → TableIsSound env t
      → Returns (opportunities_on env o t) (λ os. Unit)
  opportunities_on-Returns none e table = tt
  opportunities_on-Returns (some last) e table =
      opportunities_at-Returns last (0 ∷ 1 ∷ 2 ∷ 3 ∷ []) e table (omega arith)

  -- A hand that is over has an outcome.
  abbrev HasOutcome : Type 0
  HasOutcome = t.phase ≡ Phase.terminal → (o : Terminal) × (t.outcome ≡ some o)

  EndsInDraw-HasOutcome : EndsInDraw t → HasOutcome
  EndsInDraw-HasOutcome h e = (draw_terminal, h e)

  hand_end-Returns : (o : Terminal) → t.outcome ≡ some o → Returns (hand_end_event t) (λ e. Unit)
  unfolding hand_end_event
  hand_end-Returns o e =
      Returns-bind (or_raise t.outcome assertion_error) _ (λ u. u ≡ o) _
        (or_raise-eq t.outcome assertion_error o e) (λ u k. tt)

  module _ (s : GameState) where
    draw_or_end-Returns :
        (ph : Phase)
        → (ph ≡ Phase.terminal → (o : Terminal) × (t.outcome ≡ some o))
        → Writes (draw_or_end ph s t)
    unfolding draw_or_end
    draw_or_end-Returns Phase.terminal h =
        Returns-bind (hand_end_event t) _ (λ e. Unit) _ (hand_end-Returns (h refl).0 (h refl).1)
          (λ e _. tt)
    draw_or_end-Returns ph h = tt

    window_or_draw-Returns :
        (ph : Phase)
        → TableIsSound env t
        → (ph ≡ Phase.terminal → (o : Terminal) × (t.outcome ≡ some o))
        → Writes (window_or_draw env ph s t)
    window_or_draw-Returns Phase.claim_window table h =
        Returns-bind (claim_window_event env t) _ (λ e. Unit) _
          (Returns-bind (opportunities_on env t.last_discard t) _ (λ os. Unit) _
            (opportunities_on-Returns t.last_discard refl table) (λ os _. tt))
          (λ e _. tt)
    window_or_draw-Returns ph table h = draw_or_end-Returns ph h

    window_close-Returns :
        (old ph : Phase)
        → (ph ≡ Phase.terminal → (o : Terminal) × (t.outcome ≡ some o))
        → Writes (window_close old ph s t)
    window_close-Returns Phase.claim_window Phase.claim_window h = tt
    window_close-Returns Phase.claim_window ph h =
        Returns-bind (draw_or_end ph s t) _ (λ e. Unit) _ (draw_or_end-Returns ph h) (λ e _. tt)
    window_close-Returns old ph h = tt

    events_of :
        (seat : ℕ) (a : Action) (p : Seat)
        → TableIsSound env t
        → dispatch env s seat a ≡ ok t
        → Permitted env s seat p a
        → Writes (diff_to_events env s seat a t)
    unfolding diff_to_events
    events_of seat (Action.play tile) p table went h =
        Returns-bind (window_or_draw env t.phase s t) _ (λ e. Unit) _
          (window_or_draw-Returns t.phase table (
            EndsInDraw-HasOutcome (
              Ensures-ok (apply_play env s seat tile) EndsInDraw
                (apply_play-EndsInDraw env s seat tile) went)))
          (λ e _. tt)
    events_of seat (Action.gang tile kind) p table went h =
        Returns-bind (draw_or_end t.phase s t) _ (λ e. Unit) _
          (draw_or_end-Returns t.phase (
            EndsInDraw-HasOutcome (
              Ensures-ok (apply_gang s seat tile kind) EndsInDraw
                (apply_gang-EndsInDraw s seat tile kind) went)))
          (λ e _. tt)
    events_of seat Action.hu p table went h =
        let (o, ended, won) =
          Ensures-ok (apply_hu env s seat) (WonBy seat) (apply_hu-WonBy env s seat) went in
        Returns-bind (hand_end_event t) _ (λ e. Unit) _ (hand_end-Returns o ended) (λ e _. tt)
    events_of seat Action.pass p table went (on_turn ph mine m) = absurd m
    events_of seat Action.pass p table went (on_claim last ph opened other m) =
        Returns-bind (window_close s.phase t.phase s t) _ (λ e. Unit) _
          (window_close-Returns s.phase t.phase (
            EndsInDraw-HasOutcome (
              Ensures-ok (apply_pass s seat) EndsInDraw (apply_pass-EndsInDraw s seat (λ over. cc))
                went)))
          (λ e _. tt)
    events_of seat a p table went h = tt

-- After an action that was applied to a sound state `diff_to_events` returns.
pub diff_to_events-Returns :
    (env : Env) (s : GameState) (seat : ℕ) (a : Action) (t : GameState)
    → IsSound env s
    → apply_action env s seat a ≡ ok t
    → Returns (diff_to_events env s seat a t) (λ es. Unit)
diff_to_events-Returns env s seat a t sound e =
    let h = apply_action-Applied env s seat a t sound e in
    events_of env t s seat a h.player h.steps.settles.sound.table h.dispatched h.permitted
