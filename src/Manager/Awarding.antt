-- ===== src/Manager/Awarding.antt =====
-- A claim window that a claim wins, in `_step_claim_window` of mahjong/table/manager.py.
use mathlib.Core.Path.{subst}
use mathlib.Core.List.{append-nil, append_assoc}
use mahjong_server_bot_zoo.Prelude.{
  ℕ, ◌≡◌, ◌≢◌, refl, sym, ap, ◌∙◌, false, some, List, [], ◌∷◌, ◌++◌, map, eqb, get_elem?-total, All,
  All-imp,
}
use mahjong_server_bot_zoo.Prelude.Counting.{contains-All}
use mahjong_server_bot_zoo.Prelude.Seq.{
  ok, assertion_error, or_raise, last?-append, Returns, Returns-at, Returns-imp, Ensures,
  Ensures-bind, Ensures-ok,
}
use mahjong_server_bot_zoo.State.{Action, action_eq, GangKind, Seat, Phase, GameState}
use mahjong_server_bot_zoo.Rules.{Env}
use mahjong_server_bot_zoo.Legality.{legal_actions}
use mahjong_server_bot_zoo.Transition.{dispatch, apply_action, apply_gang, apply_hu}
use mahjong_server_bot_zoo.Transition.Invariant.{IsSound}
use mahjong_server_bot_zoo.Transition.Correct.{
  Permitted, on_turn, on_claim, legal_actions-Permitted,
}
use mahjong_server_bot_zoo.Transition.Applied.{in_range, apply_action-Applied}
use mahjong_server_bot_zoo.Records.Events.{RecordEvent, Decision}
use mahjong_server_bot_zoo.Records.{
  decision_of, resolution_of, is_own_turn_gang, only, hand_end_event, draw_or_end, diff_to_events,
  claim_resolution_claimed, Replaying, event_to_action, advance_by, replay_event, replay_events,
}
use mahjong_server_bot_zoo.Records.Outcome.{
  EndsInDraw, WonBy, apply_gang-EndsInDraw, apply_hu-WonBy,
}
use mahjong_server_bot_zoo.Records.Roundtrip.{
  at, Replays, advance-eq, draw_or_end-informs, hu-Replays,
}
use mahjong_server_bot_zoo.Manager.{
  Table, SeatResult, decision_entries, drop_decision, attach, apply_winner, play_out,
}
use mahjong_server_bot_zoo.Manager.Prompts.{DoesLegal}
use mahjong_server_bot_zoo.Manager.Gathering.{LookedUp}
use mahjong_server_bot_zoo.Manager.Playing.{
  events_of, events_of-append, events_of-attach, replay_events-append, Plays, play_out-Plays,
  Progress,
}

-- The decisions as the window holds them.
abbrev pub decisions : List SeatResult → List Decision
decisions rs = map (λ r. decision_of r.seat r.action) rs

pub DoesLegal-Permitted :
    (env : Env) (s : GameState) (seat : ℕ) (r : SeatResult)
    → IsSound env s
    → DoesLegal env s seat r
    → (p : Seat) × Permitted env s seat p r.action
DoesLegal-Permitted env s seat r sound does =
    let lt = in_range env s seat does.legal does.lists in
    let (p, found) = get_elem?-total s.seats seat (rw sound.table.four lt) in
    (
      p,
      contains-All (Permitted env s seat p) r.action does.legal
          (Returns-at (legal_actions env s seat) _
            (legal_actions-Permitted env s sound seat p found lt) does.lists)
          does.listed,
    )

claims_window :
    {env : Env} (s : GameState) (seat : ℕ) (p : Seat) (a : Action)
    → s.phase ≡ Phase.claim_window
    → Permitted env s seat p a
    → is_own_turn_gang (decision_of seat a) ≡ false
claims_window s seat p (Action.gang t GangKind.exposed) ph h = refl
claims_window s seat p (Action.gang t GangKind.concealed) ph (on_turn e mine m) = cc
claims_window s seat p (Action.gang t GangKind.concealed) ph (on_claim last e opened other m) =
    absurd m
claims_window s seat p (Action.gang t GangKind.added) ph (on_turn e mine m) = cc
claims_window s seat p (Action.gang t GangKind.added) ph (on_claim last e opened other m) = absurd m
claims_window s seat p a ph h = refl

module _ (env : Env) (s : GameState) (ys : List GameState) where
  abbrev pub waiting : List Decision → Replaying
  waiting window = record { state = s; window = window; yielded = ys }

  buffered :
      (T : Table) (rs : List SeatResult) (window : List Decision)
      → All (λ r. is_own_turn_gang (decision_of r.seat r.action) ≡ false) rs
      → replay_events env (waiting window) (events_of (decision_entries T rs))
        ≡ ok (waiting (window ++ decisions rs))
  unfolding replay_events replay_event
  buffered T [] window h = ap (λ w. ok (waiting w)) (sym (append-nil window))
  buffered T (r ∷ rs) window h = rw h.0 (
      buffered T rs (window ++ decision_of r.seat r.action ∷ []) h.1
      ∙ ap (λ w. ok (waiting w))
          (append_assoc window (decision_of r.seat r.action ∷ []) (decisions rs)))

  module _ (t : GameState) (seat : ℕ) (window : List Decision) where
    -- What `run_hand` writes after the decisions.
    abbrev Awards : List RecordEvent → Type 0
    Awards es = Replays env (waiting window) t ys (drop_decision es)

    -- The claim that the resolution names is found in the window and applied.
    resolved :
        (a : Action) (more : List RecordEvent)
        → only (λ d. eqb d.seat seat) window ≡ ok (decision_of seat a)
        → event_to_action (decision_of seat a) ≡ ok (seat, a)
        → (resolution_of seat a).winning_seat ≡ seat
        → apply_action env s seat a ≡ ok t
        → replay_events env (waiting window) (claim_resolution_claimed t seat a ∷ more)
          ≡ replay_events env (at t (ys ++ t ∷ [])) more
    unfolding replay_events replay_event advance_by
    resolved a more found read names e =
        rw (names, found, read, advance-eq env s t window ys seat a e) refl

    hand_end-kept : Ensures (hand_end_event t) (λ e. drop_decision (e ∷ []) ≡ e ∷ [])
    unfolding hand_end_event
    hand_end-kept = Ensures-bind (or_raise t.outcome assertion_error) _ _ (λ o e. refl)

    hu-Awards :
        apply_action env s seat Action.hu ≡ ok t
        → WonBy seat t
        → Ensures (diff_to_events env s seat Action.hu t) Awards
    unfolding diff_to_events
    hu-Awards e won = Ensures-bind (hand_end_event t) _ Awards λ end is.
        let kept = Ensures-ok (hand_end_event t) _ hand_end-kept is in
        subst (λ es. Replays env (waiting window) t ys es) (sym kept)
          (Ensures-ok (diff_to_events env s seat Action.hu t) (Replays env (waiting window) t ys)
            (hu-Replays env s t seat ys window e won) (rw is refl))

    awarded :
        (a : Action) (p : Seat)
        → s.phase ≡ Phase.claim_window
        → only (λ d. eqb d.seat seat) window ≡ ok (decision_of seat a)
        → a ≢ Action.pass
        → apply_action env s seat a ≡ ok t
        → dispatch env s seat a ≡ ok t
        → Permitted env s seat p a
        → Ensures (diff_to_events env s seat a t) Awards
    unfolding diff_to_events event_to_action replay_events
    awarded Action.pass p ph found ne e went h = absurd (ne refl)
    awarded (Action.play tile) p ph found ne e went (on_turn turn mine m) = absurd (cc)
    awarded (Action.play tile) p ph found ne e went (on_claim last _ opened other m) = absurd m
    awarded (Action.peng tile) p ph found ne e went h =
        resolved (Action.peng tile) [] found refl refl e
    awarded (Action.chi tiles) p ph found ne e went h =
        resolved (Action.chi tiles) [] found refl refl e
    awarded (Action.gang tile GangKind.exposed) p ph found ne e went h =
        Ensures-bind (draw_or_end t.phase s t) _ Awards λ more k.
          resolved (Action.gang tile GangKind.exposed) more found refl refl e
          ∙ Ensures-ok (draw_or_end t.phase s t) _
              (draw_or_end-informs env s t t.phase (ys ++ t ∷ []) (
                Ensures-ok (apply_gang s seat tile GangKind.exposed) EndsInDraw
                  (apply_gang-EndsInDraw s seat tile GangKind.exposed) went))
              k
    awarded (Action.gang tile GangKind.concealed) p ph found ne e went (on_turn turn mine m) =
        absurd (cc)
    awarded (Action.gang tile GangKind.concealed) p ph found ne e went (on_claim last _ o other m) =
        absurd m
    awarded (Action.gang tile GangKind.added) p ph found ne e went (on_turn turn mine m) =
        absurd (cc)
    awarded (Action.gang tile GangKind.added) p ph found ne e went (on_claim last _ o other m) =
        absurd m
    awarded Action.hu p ph found ne e went h =
        hu-Awards e (Ensures-ok (apply_hu env s seat) (WonBy seat) (apply_hu-WonBy env s seat) went)

module _ (env : Env) (T : Table) (ys : List GameState) (sound : IsSound env T.state)
    (phase : T.state.phase ≡ Phase.claim_window) where
  award_table : List SeatResult → Table
  award_table rs = record T { entries = T.entries ++ decision_entries T rs }

  awarded-Progress :
      (rs : List SeatResult) (r : SeatResult) (T' : Table)
      → All (λ x. DoesLegal env T.state x.seat x) rs
      → r.action ≢ Action.pass
      → LookedUp rs r
      → Plays env (award_table rs) r (λ es. attach r.failure false (drop_decision es)) T'
      → Progress env ys T T'
  unfolding award_table
  awarded-Progress rs r T' legal ne up h =
      let s = T.state in
      let a = apply_action-Applied env s r.seat r.action h.after sound h.applied in
      let c = h.steps.advances ne in
      let tail = drop_decision h.events in
      let ds = events_of (decision_entries T rs) in
      let open_window =
        All-imp (λ x. DoesLegal env s x.seat x) _ rs
          (λ x does.
            let (p, may) = DoesLegal-Permitted env s x.seat x sound does in
            claims_window s x.seat p x.action phase may)
          legal in
      subst (λ X. Progress env ys T X) (sym h.same)
        (record {
          sound = c.sound;
          conserves = c.conserves;
          advances = c.advances;
          written = ds ++ tail;
          grows =
              rw
                (
                  events_of-append (T.entries ++ decision_entries T rs)
                      (attach r.failure false tail),
                  events_of-append T.entries (decision_entries T rs),
                  events_of-attach r.failure false tail,
                )
                (append_assoc (events_of T.entries) ds tail);
          zs = ys ++ h.after ∷ [];
          reads =
              replay_events-append env ds tail (at s ys)
              ∙ rw (buffered env s ys T rs [] open_window) (
                  Ensures-ok (diff_to_events env s r.seat r.action h.after) _
                    (awarded env s ys h.after r.seat (decisions rs) r.action a.player phase
                      up.decision ne h.applied a.dispatched a.permitted)
                    h.diffed);
          latest = last?-append ys h.after;
        })

  -- A window with a winner: every decision is written, the winner's action is carried out, and the
  -- record of it reads back.
  pub apply_winner-Progress :
      (rs : List SeatResult) (r : SeatResult)
      → All (λ x. DoesLegal env T.state x.seat x) rs
      → DoesLegal env T.state r.seat r
      → r.action ≢ Action.pass
      → LookedUp rs r
      → Returns (apply_winner env T rs (some (r.seat, r.action))) (Progress env ys T)
  unfolding award_table
  apply_winner-Progress rs r legal does ne up = rw up.result (
      Returns-imp
        (play_out env (award_table rs) r (λ es. attach r.failure false (drop_decision es)))
        (Plays env (award_table rs) r (λ es. attach r.failure false (drop_decision es)))
        (Progress env ys T) (λ T' h. awarded-Progress rs r T' legal ne up h)
        (play_out-Plays env (award_table rs) r _ sound does))
