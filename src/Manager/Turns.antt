-- ===== src/Manager/Turns.antt =====
-- `_step_discard` of mahjong/table/manager.py.
use mathlib.Core.Path.{subst}
use mahjong_server_bot_zoo.Prelude.{
  ℕ, ◌<◌, ◌≡◌, ◌≢◌, sym, ap, ◌∙◌, Option, none, some, List, [], ◌∷◌, ◌++◌,
}
use mahjong_server_bot_zoo.Prelude.Seq.{last?, last?-append, Returns, Returns-bind}
use mahjong_server_bot_zoo.State.{Action, Seat, LastDiscard, Phase, GameState}
use mahjong_server_bot_zoo.Rules.{Env}
use mahjong_server_bot_zoo.Transition.Invariant.{TurnIsSound, IsSound}
use mahjong_server_bot_zoo.Transition.Correct.{Permitted, on_turn, on_claim}
use mahjong_server_bot_zoo.Transition.Applied.{apply_action-Applied}
use mahjong_server_bot_zoo.Records.Roundtrip.{diff_to_events-replays}
use mahjong_server_bot_zoo.Claims.{Answer}
use mahjong_server_bot_zoo.Claims.Default.{PromptKind}
use mahjong_server_bot_zoo.Manager.{
  Table, SeatResult, strike, maybe_swap_to_autopass, attach, ask, play_out, step_discard,
}
use mahjong_server_bot_zoo.Manager.Prompts.{DoesLegal, ask_turn-DoesLegal}
use mahjong_server_bot_zoo.Manager.Playing.{
  events_of, events_of-append, events_of-attach, Plays, play_out-Plays, Progress,
}

actor_of :
    (actor : ℕ) (o : Option LastDiscard) (seats : List Seat)
    → TurnIsSound Phase.discard actor o seats
    → actor < 4
actor_of actor none seats h = h
actor_of actor (some last) seats h = absurd h

not_pass :
    {env : Env} (s : GameState) (seat : ℕ) (p : Seat) (a : Action)
    → s.phase ≡ Phase.discard
    → Permitted env s seat p a
    → a ≢ Action.pass
not_pass s seat p Action.pass ph (on_turn _ mine m) e = m
not_pass s seat p Action.pass ph (on_claim last window opened other m) e = cc
not_pass s seat p a ph h e = cc

module _ (env : Env) (answers : ℕ → Answer) (limit : ℕ) (T : Table) (ys : List GameState)
    (sound : IsSound env T.state) (phase : T.state.phase ≡ Phase.discard)
    (latest : last? ys ≡ some T.state) where
  played-Progress :
      (r : SeatResult) (T' : Table)
      → Plays env (strike T r.seat r.failure) r (attach r.failure (T.auto_pass r.seat)) T'
      → Progress env ys T (maybe_swap_to_autopass limit T' r.seat)
  played-Progress r T' h =
      let a = apply_action-Applied env T.state r.seat r.action h.after sound h.applied in
      let c = h.steps.advances (not_pass T.state r.seat a.player r.action phase a.permitted) in
      subst (λ X. Progress env ys T (maybe_swap_to_autopass limit X r.seat)) (sym h.same)
        (record {
          sound = c.sound;
          conserves = c.conserves;
          advances = c.advances;
          written = h.events;
          grows =
              events_of-append T.entries (attach r.failure (T.auto_pass r.seat) h.events)
              ∙ ap (λ l. events_of T.entries ++ l)
                  (events_of-attach r.failure (T.auto_pass r.seat) h.events);
          zs = ys ++ h.after ∷ [];
          reads =
              diff_to_events-replays env T.state h.after r.seat r.action h.events ys sound phase
                h.applied h.diffed;
          latest = last?-append ys h.after;
        })

  -- On a sound state in the discard phase, whatever the adapters answer, `step_discard` returns.
  pub step_discard-Progress : Returns (step_discard env answers limit T) (Progress env ys T)
  unfolding step_discard
  step_discard-Progress =
      let lt : T.state.current_actor < 4 =
        actor_of T.state.current_actor T.state.last_discard T.state.seats (
          subst (λ ph. TurnIsSound ph T.state.current_actor T.state.last_discard T.state.seats)
            phase sound.turn) in
      Returns-bind (ask env answers T PromptKind.discard T.state.current_actor) _
        (DoesLegal env T.state T.state.current_actor) (Progress env ys T)
        (ask_turn-DoesLegal env answers T sound phase lt)
        λ r does.
          let U : Table = strike T r.seat r.failure in
          Returns-bind (play_out env U r (attach r.failure (T.auto_pass r.seat))) _
            (Plays env U r (attach r.failure (T.auto_pass r.seat))) (Progress env ys T)
            (play_out-Plays env U r (attach r.failure (T.auto_pass r.seat)) sound
              (subst (λ i. DoesLegal env T.state i r) (sym does.own) does))
            (λ T' h. played-Progress r T' h)
