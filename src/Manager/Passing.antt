-- ===== src/Manager/Passing.antt =====
-- A claim window that every claimer passes: `_apply_all_pass` of mahjong/table/manager.py.
use mathlib.Core.Path.{subst, subst₂}
use mathlib.Core.List.{append_assoc, append-nil}
use mahjong_server_bot_zoo.Prelude.{
  ℕ, ◌<◌, ◌≤◌, ◌≡◌, ◌≢◌, ◌⊎◌, inl, inr, refl, sym, ap, ◌∙◌, true, false, not, some, List, [], ◌∷◌,
  ◌++◌, map, arith, eqb, length, nat_eq, All, All-imp,
}
use mahjong_server_bot_zoo.Prelude.Counting.{contains}
use mahjong_server_bot_zoo.Prelude.Every.{All-keep}
use mahjong_server_bot_zoo.Prelude.Seq.{
  Result, ok, err, last?, last?-append, Returns, Returns-at, Returns-bind, Returns-imp, Ensures-ok,
  >>=-ok, ◌>>=◌,
}
use mahjong_server_bot_zoo.State.{Action, LastDiscard, PendingClaim, Phase, GameState}
use mahjong_server_bot_zoo.Rules.{Env}
use mahjong_server_bot_zoo.Transition.{apply_action, apply_pass}
use mahjong_server_bot_zoo.Transition.Invariant.{
  work, IsSound, Conserves, Continues, Advances, PendingIsSound,
}
use mahjong_server_bot_zoo.Transition.Applied.{apply_action-Applied}
use mahjong_server_bot_zoo.Transition.Passing.{
  IsClosed, left_after, Passed, stays, closes, apply_pass-Passed,
}
use mahjong_server_bot_zoo.Records.Events.{RecordEvent, Decision}
use mahjong_server_bot_zoo.Records.{
  decision_of, draw_or_end, window_close, claim_decision_event, claim_resolution_passed,
  diff_to_events, Replaying, advance_by, advance_all, event_to_action, replay_event, replay_events,
}
use mahjong_server_bot_zoo.Records.Outcome.{EndsInDraw, apply_pass-EndsInDraw}
use mahjong_server_bot_zoo.Records.Roundtrip.{at, advance-eq, draw_or_end-informs}
use mahjong_server_bot_zoo.Manager.{
  Entry, Table, SeatResult, attach, play_out, is_window, apply_all_pass,
}
use mahjong_server_bot_zoo.Manager.Prompts.{pass-DoesLegal}
use mahjong_server_bot_zoo.Manager.Awarding.{waiting}
use mahjong_server_bot_zoo.Manager.Playing.{
  events_of, events_of-append, events_of-attach, replay_events-append, Plays, play_out-Plays,
  Progress,
}

stays_open :
    (old ph : Phase) (s t : GameState)
    → old ≡ Phase.claim_window
    → ph ≡ Phase.claim_window
    → window_close old ph s t ≡ ok []
stays_open Phase.claim_window Phase.claim_window s t e k = refl
stays_open Phase.claim_window ph s t e k = absurd (cc)
stays_open old ph s t e k = absurd (cc)

closes_now :
    (old ph : Phase) (s t : GameState)
    → old ≡ Phase.claim_window
    → ph ≢ Phase.claim_window
    → window_close old ph s t
      ≡ (draw_or_end ph s t >>= λ more. ok (claim_resolution_passed t ∷ more))
closes_now Phase.claim_window Phase.claim_window s t e k = absurd (k refl)
closes_now Phase.claim_window ph s t e k = refl
closes_now old ph s t e k = absurd (cc)

module _ (env : Env) (s0 : GameState) (ys : List GameState) (entered : List RecordEvent)
    (last : LastDiscard) where
  -- The window after some of the claimers passed: what was written waits in the replay's window.
  record Waits (T : Table) : Type 0 where
    sound : IsSound env T.state
    phase : T.state.phase ≡ Phase.claim_window
    opened : T.state.last_discard ≡ some last
    conserves : Conserves s0 T.state
    no_more : work T.state ≤ work s0
    pre : List RecordEvent
    grows : events_of T.entries ≡ entered ++ pre
    window : List Decision
    waits : replay_events env (at s0 ys) pre ≡ ok (waiting env s0 ys window)
    zs : List GameState
    applied :
        (w : List Decision)
        → advance_all env (waiting env s0 ys w) window
          ≡ ok (record { state = T.state; window = w; yielded = zs })

  -- The window has closed.
  record Closed (T : Table) : Type 0 where
    sound : IsSound env T.state
    closed : IsClosed T.state
    conserves : Conserves s0 T.state
    advances :
        (work T.state ≤ work s0) × ((work T.state < work s0) ⊎ (T.state.phase ≡ Phase.terminal))
    pre : List RecordEvent
    grows : events_of T.entries ≡ entered ++ pre
    zs : List GameState
    reads : replay_events env (at s0 ys) pre ≡ ok (at T.state zs)
    latest : last? zs ≡ some T.state

  after_decision :
      (xs zs : List Decision) (m : Result Replaying)
      → ((r : Replaying)
          → advance_all env r (xs ++ zs) ≡ (advance_all env r xs >>= λ r'. advance_all env r' zs))
      → (m >>= λ r. advance_all env r (xs ++ zs))
        ≡ ((m >>= λ r. advance_all env r xs) >>= λ r'. advance_all env r' zs)
  after_decision xs zs (ok r) h = h r
  after_decision xs zs (err e) h = refl

  advance_all-append :
      (xs zs : List Decision) (r : Replaying)
      → advance_all env r (xs ++ zs) ≡ (advance_all env r xs >>= λ r'. advance_all env r' zs)
  unfolding advance_all
  advance_all-append [] zs r = refl
  advance_all-append (x ∷ xs) zs r =
      after_decision xs zs (advance_by env r x) (advance_all-append xs zs)

  -- One more decision, which was applied.
  applied_next :
      (T : Table) (seat : ℕ) (t : GameState) (h : Waits T)
      → apply_action env T.state seat Action.pass ≡ ok t
      → (w : List Decision)
      → advance_all env (waiting env s0 ys w) (h.window ++ decision_of seat Action.pass ∷ [])
        ≡ ok (record { state = t; window = w; yielded = h.zs ++ t ∷ [] })
  unfolding advance_all advance_by event_to_action
  applied_next T seat t h e w =
      advance_all-append h.window (decision_of seat Action.pass ∷ []) (waiting env s0 ys w)
      ∙ rw (h.applied w, advance-eq env T.state t w h.zs seat Action.pass e) refl

  Advances-from : (s t : GameState) → work s ≤ work s0 → Advances s t → Advances s0 t
  Advances-from s t le (less, inl lt) = (omega arith, inl (omega arith))
  Advances-from s t le (less, inr over) = (omega arith, inr over)

  module _ (T : Table) (seat : ℕ) (t : GameState) (events : List RecordEvent) (att : List Entry)
      (h : Waits T) (e : apply_action env T.state seat Action.pass ≡ ok t)
      (diffed : diff_to_events env T.state seat Action.pass t ≡ ok events)
      (ev : events_of att ≡ events) where
    abbrev next : Table
    next = record T { state = t; entries = T.entries ++ att }

    next_grows : events_of next.entries ≡ entered ++ (h.pre ++ events)
    next_grows =
        events_of-append T.entries att ∙ rw (h.grows, ev) (append_assoc entered h.pre events)

    -- The window stays open: the PASS joins the decisions that wait.
    stays-Waits :
        t ≡ record T.state { pending_claims = left_after T.state seat } → IsSound env t → Waits next
    unfolding diff_to_events replay_events replay_event
    stays-Waits same sound =
        let ph : t.phase ≡ Phase.claim_window = rw same h.phase in
        let k : diff_to_events env T.state seat Action.pass t
            ≡ ok (claim_decision_event t seat Action.pass ∷ []) =
          rw (stays_open T.state.phase t.phase T.state t h.phase ph) refl in
        let only_one : ok events ≡ ok (claim_decision_event t seat Action.pass ∷ []) =
          sym diffed ∙ k in
        let es : events ≡ claim_decision_event t seat Action.pass ∷ [] = cc in
        record {
          sound = sound;
          phase = ph;
          opened = rw same h.opened;
          conserves = rw same (record { tiles = h.conserves.tiles; scored = h.conserves.scored });
          no_more = rw same h.no_more;
          pre = h.pre ++ events;
          grows = next_grows;
          window = h.window ++ decision_of seat Action.pass ∷ [];
          waits = replay_events-append env h.pre events (at s0 ys) ∙ rw (h.waits, es) refl;
          zs = h.zs ++ t ∷ [];
          applied = applied_next T seat t h e;
        }

    -- The window closes: the PASSes that wait are applied one after the other.
    closing_reads :
        EndsInDraw t
        → (more : List RecordEvent) → draw_or_end t.phase T.state t ≡ ok more
        → replay_events env
            (waiting env s0 ys h.window)
            (claim_decision_event t seat Action.pass ∷ claim_resolution_passed t ∷ more)
          ≡ ok (at t (h.zs ++ t ∷ []))
    unfolding replay_events replay_event
    closing_reads ends more k =
        let all = applied_next T seat t h e (h.window ++ decision_of seat Action.pass ∷ []) in
        rw all (
          Ensures-ok (draw_or_end t.phase T.state t) _
            (draw_or_end-informs env T.state t t.phase (h.zs ++ t ∷ []) ends) k)

    closes-Closed : IsClosed t → Continues env T.state t → EndsInDraw t → Closed next
    unfolding diff_to_events
    closes-Closed away c ends =
        let (more, k, same) = >>=-ok (window_close T.state.phase t.phase T.state t) _ diffed in
        let (rest, k', same') =
          >>=-ok (draw_or_end t.phase T.state t) _
            (sym (closes_now T.state.phase t.phase T.state t h.phase away) ∙ k) in
        let es : events
            ≡ claim_decision_event t seat Action.pass ∷ claim_resolution_passed t ∷ rest =
          cc in
        record {
          sound = c.sound;
          closed = away;
          conserves = record {
            tiles = λ a. c.conserves.tiles a ∙ h.conserves.tiles a;
            scored = c.conserves.scored ∙ h.conserves.scored;
          };
          advances = Advances-from T.state t h.no_more c.advances;
          pre = h.pre ++ events;
          grows = next_grows;
          zs = h.zs ++ t ∷ [];
          reads =
              replay_events-append env h.pre events (at s0 ys)
              ∙ rw (h.waits, es) (closing_reads ends rest k');
          latest = last?-append h.zs t;
        }

    went_to :
        IsSound env t
        → EndsInDraw t
        → Passed env T.state seat t
        → (Waits next × (t.pending_claims ≡ left_after T.state seat)) ⊎ Closed next
    went_to sound ends (stays same some_left) = inl (stays-Waits same sound, rw same refl)
    went_to sound ends (closes away c) = inr (closes-Closed away c ends)

  passed :
      (T : Table) (r : SeatResult) (T' : Table)
      → Waits T
      → r.action ≡ Action.pass
      → Plays env T r (attach r.failure (T.auto_pass r.seat)) T'
      → (Waits T' × (T'.state.pending_claims ≡ left_after T.state r.seat)) ⊎ Closed T'
  passed T r T' h passes p =
      let e : apply_action env T.state r.seat Action.pass ≡ ok p.after =
        subst (λ a. apply_action env T.state r.seat a ≡ ok p.after) passes p.applied in
      let diffed : diff_to_events env T.state r.seat Action.pass p.after ≡ ok p.events =
        subst (λ a. diff_to_events env T.state r.seat a p.after ≡ ok p.events) passes p.diffed in
      let went =
        (apply_action-Applied env T.state r.seat Action.pass p.after h.sound e).dispatched in
      let att = attach r.failure (T.auto_pass r.seat) p.events in
      subst (λ X. (Waits X × (X.state.pending_claims ≡ left_after T.state r.seat)) ⊎ Closed X)
        (sym p.same)
        (went_to T r.seat p.after p.events att h e diffed
          (events_of-attach r.failure (T.auto_pass r.seat) p.events) p.steps.settles.sound
          (Ensures-ok (apply_pass T.state r.seat) EndsInDraw
            (apply_pass-EndsInDraw T.state r.seat (λ over. let ph = h.phase in cc)) went)
          (Returns-at (apply_pass T.state r.seat) (Passed env T.state r.seat)
            (apply_pass-Passed env T.state last r.seat h.sound h.phase h.opened) went))

  -- One claimer passes.
  pass_on :
      (T : Table) (r : SeatResult)
      → Waits T
      → r.action ≡ Action.pass
      → r.seat < 4
      → r.seat ≢ last.seat
      → Returns
          (play_out env T r (attach r.failure (T.auto_pass r.seat)))
          (λ T'. (Waits T' × (T'.state.pending_claims ≡ left_after T.state r.seat)) ⊎ Closed T')
  pass_on T r h passes lt other =
      Returns-imp (play_out env T r (attach r.failure (T.auto_pass r.seat)))
        (Plays env T r (attach r.failure (T.auto_pass r.seat))) _ (λ T' p. passed T r T' h passes p)
        (play_out-Plays env T r (attach r.failure (T.auto_pass r.seat)) h.sound
          (pass-DoesLegal env T.state last r h.sound h.phase h.opened lt other passes))

  -- The loop over the claimers. Everyone that is waited for is among them, so the window closes.
  abbrev pub Covers : List SeatResult → List PendingClaim → Type 0
  Covers rs claims = All (λ c. contains c.seat (map (λ r. r.seat) rs) ≡ true) claims

  left_Covers :
      (s : GameState) (r : SeatResult) (rs : List SeatResult)
      → Covers (r ∷ rs) s.pending_claims
      → Covers rs (left_after s r.seat)
  left_Covers s r rs h =
      All-imp _ (λ c. contains c.seat (map (λ x. x.seat) rs) ≡ true) (left_after s r.seat)
        (λ c k. ground arith)
        (All-keep (λ c. contains c.seat (map (λ x. x.seat) (r ∷ rs)) ≡ true)
          (λ c. not (eqb c.seat r.seat)) s.pending_claims h)

  nobody_waits : (claims : List PendingClaim) → 0 < length claims → Covers [] claims → ⊥
  nobody_waits [] lt h = absurd (omega arith)
  nobody_waits (c ∷ cs) lt h = let k = h.0 in cc

  shut_window : (ph : Phase) → ph ≢ Phase.claim_window → is_window ph ≡ false
  shut_window Phase.claim_window h = absurd (h refl)
  shut_window ph h = refl

  stops : (T : Table) (rs : List SeatResult) → IsClosed T.state → apply_all_pass env T rs ≡ ok T
  unfolding apply_all_pass
  stops T [] away = refl
  stops T (r ∷ rs) away =
      let shut = shut_window T.state.phase away in rw (shut, apply_all_pass) refl

  pass_each :
      (rs : List SeatResult) (T : Table)
      → Waits T
      → Covers rs T.state.pending_claims
      → All (λ r. (r.action ≡ Action.pass) × (r.seat < 4) × (r.seat ≢ last.seat)) rs
      → Returns (apply_all_pass env T rs) Closed
  unfolding apply_all_pass
  pass_each [] T h covers passes = absurd (
      nobody_waits T.state.pending_claims
        (subst₂ (λ ph o. PendingIsSound ph o T.state.pending_claims) h.phase h.opened
          h.sound.pending).0
        covers)
  pass_each (r ∷ rs) T h covers passes =
      let yet : is_window T.state.phase ≡ true = ap is_window h.phase in
      rw (yet, apply_all_pass)
        (Returns-bind (play_out env T r (attach r.failure (T.auto_pass r.seat))) _ _ Closed
          (pass_on T r h passes.0.0 passes.0.1 passes.0.2)
          λ T' went. elim went [
            | inl (more, waits) ↦
                pass_each rs T' more (rw waits (left_Covers T.state r rs covers)) passes.1
            | inr done ↦ rw (stops T' rs done.closed) done
          ])

module _ (env : Env) (T : Table) (ys : List GameState) (last : LastDiscard)
    (sound : IsSound env T.state) (phase : T.state.phase ≡ Phase.claim_window)
    (opened : T.state.last_discard ≡ some last) where
  opened-Waits : Waits env T.state ys (events_of T.entries) last T
  unfolding replay_events advance_all
  opened-Waits = record {
    sound = sound;
    phase = phase;
    opened = opened;
    conserves = record { tiles = λ a. refl; scored = refl };
    no_more = omega arith;
    pre = [];
    grows = sym (append-nil (events_of T.entries));
    window = [];
    waits = refl;
    zs = ys;
    applied = λ w. refl;
  }

  -- A window that every claimer passes closes, and the record of it reads back.
  pub apply_all_pass-Progress :
      (rs : List SeatResult)
      → Covers env T.state ys (events_of T.entries) last rs T.state.pending_claims
      → All (λ r. (r.action ≡ Action.pass) × (r.seat < 4) × (r.seat ≢ last.seat)) rs
      → Returns (apply_all_pass env T rs) (Progress env ys T)
  apply_all_pass-Progress rs covers passes =
      Returns-imp (apply_all_pass env T rs) (Closed env T.state ys (events_of T.entries) last)
        (Progress env ys T)
        (λ T' c. record {
          sound = c.sound;
          conserves = c.conserves;
          advances = c.advances;
          written = c.pre;
          grows = c.grows;
          zs = c.zs;
          reads = c.reads;
          latest = c.latest;
        })
        (pass_each env T.state ys (events_of T.entries) last rs T opened-Waits covers passes)
