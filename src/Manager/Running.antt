-- ===== src/Manager/Running.antt =====
-- The loop of `run_hand` of mahjong/table/manager.py: a hand ends, and its record reads back.
use mathlib.Core.Path.{subst}
use mathlib.Core.List.{append_assoc, append-nil}
use mahjong_server_bot_zoo.Prelude.{
  ℕ, zero, suc, ◌+◌, ◌<◌, ◌≡◌, ◌⊎◌, inl, inr, refl, sym, ap, ◌∙◌, true, false, Option, none, some,
  List, [], ◌++◌, arith, Bool-cases,
}
use mahjong_server_bot_zoo.Prelude.Seq.{ok, last?, Returns, Returns-bind, Returns-imp}
use mahjong_server_bot_zoo.State.{Seat, LastDiscard, Phase, GameState}
use mahjong_server_bot_zoo.Rules.{Env}
use mahjong_server_bot_zoo.Transition.Invariant.{work, TurnIsSound, IsSound, Conserves}
use mahjong_server_bot_zoo.Transition.Correct.{opened_at}
use mahjong_server_bot_zoo.Records.Events.{RecordEvent}
use mahjong_server_bot_zoo.Records.{replay_events}
use mahjong_server_bot_zoo.Records.Roundtrip.{at}
use mahjong_server_bot_zoo.Claims.{Answer}
use mahjong_server_bot_zoo.Manager.{Table, is_terminal, step_in, run_loop}
use mahjong_server_bot_zoo.Manager.Playing.{events_of, replay_events-append, Progress}
use mahjong_server_bot_zoo.Manager.Turns.{step_discard-Progress}
use mahjong_server_bot_zoo.Manager.Windows.{step_claim_window-Progress}

-- What a run of the loop ends with.
pub record Ended (env : Env) (ys : List GameState) (T T' : Table) : Type 0 where
  pub sound : IsSound env T'.state
  pub over : T'.state.phase ≡ Phase.terminal
  pub conserves : Conserves T.state T'.state
  pub written : List RecordEvent
  pub grows : events_of T'.entries ≡ events_of T.entries ++ written
  pub zs : List GameState
  pub reads : replay_events env (at T.state ys) written ≡ ok (at T'.state zs)
  pub latest : last? zs ≡ some T'.state

terminal_of : (ph : Phase) → is_terminal ph ≡ true → ph ≡ Phase.terminal
terminal_of Phase.terminal h = refl
terminal_of ph h = absurd (cc)

terminal_at : (ph : Phase) → ph ≡ Phase.terminal → is_terminal ph ≡ true
terminal_at Phase.terminal h = refl
terminal_at ph h = absurd (cc)

no_turn :
    (ph : Phase) (actor : ℕ) (o : Option LastDiscard) (seats : List Seat)
    → TurnIsSound ph actor o seats
    → is_terminal ph ≡ false
    → (ph ≡ Phase.discard) ⊎ (ph ≡ Phase.claim_window)
no_turn Phase.discard actor o seats h k = inl refl
no_turn Phase.claim_window actor o seats h k = inr refl
no_turn Phase.terminal actor o seats h k = absurd (cc)
no_turn ph actor none seats h k = absurd h
no_turn ph actor (some last) seats h k = absurd h

module _ (env : Env) (limit : ℕ) where
  step_in-Progress :
      (answers : ℕ → Answer) (T : Table) (ys : List GameState)
      → IsSound env T.state
      → is_terminal T.state.phase ≡ false
      → last? ys ≡ some T.state
      → Returns (step_in env answers limit T.state.phase T) (Progress env ys T)
  step_in-Progress answers T ys sound going latest =
      elim (no_turn T.state.phase T.state.current_actor T.state.last_discard T.state.seats
        sound.turn going) [
          | inl turn ↦
              subst (λ ph. Returns (step_in env answers limit ph T) (Progress env ys T)) (sym turn)
                (step_discard-Progress env answers limit T ys sound turn latest)
          | inr window ↦
              let (last, opened) = opened_at env T.state sound window in
              subst (λ ph. Returns (step_in env answers limit ph T) (Progress env ys T))
                (sym window)
                (step_claim_window-Progress env answers limit T ys last sound window opened)
        ]

  Ended-refl :
      (T : Table) (ys : List GameState)
      → IsSound env T.state
      → T.state.phase ≡ Phase.terminal
      → last? ys ≡ some T.state
      → Ended env ys T T
  unfolding replay_events
  Ended-refl T ys sound over latest = record {
    sound = sound;
    over = over;
    conserves = record { tiles = λ a. refl; scored = refl };
    written = [];
    grows = sym (append-nil (events_of T.entries));
    zs = ys;
    reads = refl;
    latest = latest;
  }

  Ended-after :
      (T U V : Table) (ys : List GameState)
      → (p : Progress env ys T U) → Ended env p.zs U V
      → Ended env ys T V
  Ended-after T U V ys p e = record {
    sound = e.sound;
    over = e.over;
    conserves = record {
      tiles = λ a. e.conserves.tiles a ∙ p.conserves.tiles a;
      scored = e.conserves.scored ∙ p.conserves.scored;
    };
    written = p.written ++ e.written;
    grows =
        e.grows
        ∙ ap (λ l. l ++ e.written) p.grows
        ∙ append_assoc (events_of T.entries) p.written e.written;
    zs = e.zs;
    reads = replay_events-append env p.written e.written (at T.state ys) ∙ rw p.reads e.reads;
    latest = e.latest;
  }

  run_loop-over :
      (answers : ℕ → ℕ → Answer) (fuel n : ℕ) (T : Table)
      → T.state.phase ≡ Phase.terminal
      → run_loop env answers limit fuel n T ≡ ok T
  unfolding run_loop
  run_loop-over answers zero n T over =
      let k = terminal_at T.state.phase over in rw (k, run_loop) refl
  run_loop-over answers (suc fuel) n T over =
      let k = terminal_at T.state.phase over in rw (k, run_loop) refl

  -- On a sound state, whatever the adapters answer, more passes than there is left to play are
  -- enough: the loop ends in a terminal state.
  pub run_loop-Ended :
      (answers : ℕ → ℕ → Answer) (fuel n : ℕ) (T : Table) (ys : List GameState)
      → IsSound env T.state
      → work T.state < fuel
      → last? ys ≡ some T.state
      → Returns (run_loop env answers limit fuel n T) (Ended env ys T)
  unfolding run_loop
  run_loop-Ended answers zero n T ys sound lt latest = absurd (omega arith)
  run_loop-Ended answers (suc fuel) n T ys sound lt latest =
      elim (Bool-cases (is_terminal T.state.phase)) [
        | inl over ↦
            rw (over, run_loop) (Ended-refl T ys sound (terminal_of T.state.phase over) latest)
        | inr going ↦
            rw (going, run_loop)
              (Returns-bind (step_in env (answers n) limit T.state.phase T) _ (Progress env ys T)
                (Ended env ys T) (step_in-Progress (answers n) T ys sound going latest)
                (λ U p. elim p.advances.1 [
                  | inl less ↦
                      Returns-imp (run_loop env answers limit fuel (n + 1) U) (Ended env p.zs U)
                        (Ended env ys T) (λ V e. Ended-after T U V ys p e)
                        (run_loop-Ended answers fuel (n + 1) U p.zs p.sound (omega arith) p.latest)
                  | inr over ↦
                      subst (λ m. Returns m (Ended env ys T))
                        (sym (run_loop-over answers fuel (n + 1) U over))
                        (Ended-after T U U ys p (Ended-refl U p.zs p.sound over p.latest))
                ]))
      ]
