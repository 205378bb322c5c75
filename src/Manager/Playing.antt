-- ===== src/Manager/Playing.antt =====
-- One applied action of mahjong/table/manager.py: what `play_out` changes, and what it writes.
use mahjong_server_bot_zoo.Prelude.{
  ℕ, ◌≡◌, refl, ap, true, some, List, [], ◌∷◌, ◌++◌, map, get_elem?-total,
}
use mahjong_server_bot_zoo.Prelude.Counting.{contains, contains-All}
use mahjong_server_bot_zoo.Prelude.Seq.{
  Result, ok, err, last?, Returns, Returns-at, Returns-ok, ◌>>=◌,
}
use mahjong_server_bot_zoo.State.{Action, action_eq, GameState}
use mahjong_server_bot_zoo.Rules.{Env}
use mahjong_server_bot_zoo.Legality.{legal_actions}
use mahjong_server_bot_zoo.Transition.{apply_action}
use mahjong_server_bot_zoo.Transition.Invariant.{IsSound, Conserves, Advances}
use mahjong_server_bot_zoo.Transition.Correct.{
  Permitted, legal_actions-Permitted, Steps, dispatch-Steps,
}
use mahjong_server_bot_zoo.Transition.Applied.{in_range}
use mahjong_server_bot_zoo.Records.Events.{RecordEvent}
use mahjong_server_bot_zoo.Records.{diff_to_events, Replaying, replay_event, replay_events}
use mahjong_server_bot_zoo.Records.Writing.{diff_to_events-Returns}
use mahjong_server_bot_zoo.Records.Roundtrip.{at}
use mahjong_server_bot_zoo.Claims.{FailureMeta}
use mahjong_server_bot_zoo.Manager.{Entry, attach, Table, SeatResult, play_out}
use mahjong_server_bot_zoo.Manager.Prompts.{DoesLegal}

-- The events of a record, without what is noted of failures.
abbrev pub events_of : List Entry → List RecordEvent
events_of entries = map (λ e. e.event) entries

pub events_of-append : (xs ys : List Entry) → events_of (xs ++ ys) ≡ events_of xs ++ events_of ys
events_of-append [] ys = refl
events_of-append (x ∷ xs) ys = ap (λ l. x.event ∷ l) (events_of-append xs ys)

events_of-later :
    (es : List RecordEvent) (f : RecordEvent → Entry)
    → ((e : RecordEvent) → (f e).event ≡ e)
    → events_of (map f es) ≡ es
events_of-later [] f h = refl
events_of-later (e ∷ es) f h = rw (h e, events_of-later es f h) refl

pub events_of-attach :
    (failure : FailureMeta) (auto_pass : _) (es : List RecordEvent)
    → events_of (attach failure auto_pass es) ≡ es
events_of-attach failure auto_pass [] = refl
events_of-attach failure auto_pass (e ∷ es) = ap (λ l. e ∷ l) (events_of-later es _ (λ x. refl))

after_event :
    (env : Env) (xs ys : List RecordEvent) (m : Result Replaying)
    → ((r : Replaying)
        → replay_events env r (xs ++ ys)
          ≡ (replay_events env r xs >>= λ r'. replay_events env r' ys))
    → (m >>= λ r. replay_events env r (xs ++ ys))
      ≡ ((m >>= λ r. replay_events env r xs) >>= λ r'. replay_events env r' ys)
after_event env xs ys (ok r) h = h r
after_event env xs ys (err e) h = refl

pub replay_events-append :
    (env : Env) (xs ys : List RecordEvent) (r : Replaying)
    → replay_events env r (xs ++ ys) ≡ (replay_events env r xs >>= λ r'. replay_events env r' ys)
unfolding replay_events
replay_events-append env [] ys r = refl
replay_events-append env (x ∷ xs) ys r =
    after_event env xs ys (replay_event env r x) (replay_events-append env xs ys)

-- The table after `play_out`.
pub record Plays (env : Env) (T : Table) (r : SeatResult) (written : List RecordEvent → List Entry)
    (T' : Table) : Type 0 where
  pub after : GameState
  pub events : List RecordEvent
  pub applied : apply_action env T.state r.seat r.action ≡ ok after
  pub diffed : diff_to_events env T.state r.seat r.action after ≡ ok events
  pub same : T' ≡ record T { state = after; entries = T.entries ++ written events }
  pub steps : Steps env T.state r.action after

module _ (env : Env) (s : GameState) (sound : IsSound env s) where
  -- A listed action is carried out.
  pub listed-applied :
      (seat : ℕ) (a : Action) (legal : List Action)
      → legal_actions env s seat ≡ ok legal
      → contains a legal ≡ true
      → Returns (apply_action env s seat a) (Steps env s a)
  unfolding apply_action
  listed-applied seat a legal e listed =
      let lt = in_range env s seat legal e in
      let (p, found) = get_elem?-total s.seats seat (rw sound.table.four lt) in
      let all =
        Returns-at (legal_actions env s seat) _
          (legal_actions-Permitted env s sound seat p found lt) e in
      rw (e, listed)
        (dispatch-Steps env s seat sound lt p a found
          (contains-All (Permitted env s seat p) a legal all listed))

module _ (env : Env) (T : Table) (r : SeatResult) (written : List RecordEvent → List Entry)
    (sound : IsSound env T.state) where
  -- On a sound state, what was found legal is carried out and written.
  pub play_out-Plays :
      DoesLegal env T.state r.seat r → Returns (play_out env T r written) (Plays env T r written)
  unfolding play_out
  play_out-Plays does =
      let (t, e, steps) =
        Returns-ok (apply_action env T.state r.seat r.action) _
          (listed-applied env T.state sound r.seat r.action does.legal does.lists does.listed) in
      let (es, k, u) =
        Returns-ok (diff_to_events env T.state r.seat r.action t) _
          (diff_to_events-Returns env T.state r.seat r.action t sound e) in
      rw (e, k)
        (record { after = t; events = es; applied = e; diffed = k; same = refl; steps = steps })

-- A step of the loop: it keeps the table sound, what it writes is read back, and the hand comes
-- nearer to its end.
pub record Progress (env : Env) (ys : List GameState) (T T' : Table) : Type 0 where
  pub sound : IsSound env T'.state
  pub conserves : Conserves T.state T'.state
  pub advances : Advances T.state T'.state
  pub written : List RecordEvent
  pub grows : events_of T'.entries ≡ events_of T.entries ++ written
  pub zs : List GameState
  pub reads : replay_events env (at T.state ys) written ≡ ok (at T'.state zs)
  pub latest : last? zs ≡ some T'.state
