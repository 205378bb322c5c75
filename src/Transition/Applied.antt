-- ===== src/Transition/Applied.antt =====
-- What is known when `apply_action` of mahjong/engine/transition/__init__.py has returned.
use mahjong_server_bot_zoo.Prelude.{
  ℕ, ◌<◌, ◌≡◌, refl, Bool, true, false, some, List, arith, leb, get_elem?, get_elem?-total, All,
  if◌then◌else◌,
}
use mahjong_server_bot_zoo.Prelude.Counting.{contains, contains-All}
use mahjong_server_bot_zoo.Prelude.Seq.{
  Result, ok, err, value_error, illegal_action, guard, >>=-ok, Returns-at, ◌>>◌,
}
use mahjong_server_bot_zoo.State.{Action, action_eq, Seat, GameState}
use mahjong_server_bot_zoo.Rules.{Env}
use mahjong_server_bot_zoo.Legality.{actions_in, legal_actions}
use mahjong_server_bot_zoo.Transition.{dispatch, apply_action}
use mahjong_server_bot_zoo.Transition.Invariant.{IsSound}
use mahjong_server_bot_zoo.Transition.Correct.{
  Permitted, legal_actions-Permitted, Steps, dispatch-Steps,
}

-- The action was permitted to one of the four seats, and was carried out.
pub record Applied (env : Env) (s : GameState) (seat : ℕ) (a : Action) (t : GameState)
    : Type 0 where
  pub lt : seat < 4
  pub player : Seat
  pub found : get_elem? s.seats seat ≡ some player
  pub permitted : Permitted env s seat player a
  pub dispatched : dispatch env s seat a ≡ ok t
  pub steps : Steps env s a t

guard-ok :
    (b : Bool) (m : Result GameState) (t : GameState)
    → (guard b illegal_action >> m) ≡ ok t
    → (b ≡ true) × (m ≡ ok t)
guard-ok true m t h = (refl, h)
guard-ok false m t h = absurd (cc)

refused-ok :
    (b : Bool) (m : Result (List Action)) (legal : List Action)
    → (if b then err value_error else m) ≡ ok legal
    → b ≡ false
refused-ok true m legal h = absurd (cc)
refused-ok false m legal h = refl

pub in_range :
    (env : Env) (s : GameState) (seat : ℕ) (legal : List Action)
    → legal_actions env s seat ≡ ok legal
    → seat < 4
unfolding legal_actions
in_range env s seat legal e =
    let small = refused-ok (leb 4 seat) (actions_in env s.phase s seat) legal e in ground arith

-- An action that was applied to a sound state was permitted, and led to a sound state.
pub apply_action-Applied :
    (env : Env) (s : GameState) (seat : ℕ) (a : Action) (t : GameState)
    → IsSound env s
    → apply_action env s seat a ≡ ok t
    → Applied env s seat a t
unfolding apply_action
apply_action-Applied env s seat a t sound e =
    let (legal, el, e') = >>=-ok (legal_actions env s seat) _ e in
    let (listed, went) = guard-ok (contains a legal) (dispatch env s seat a) t e' in
    let lt = in_range env s seat legal el in
    let (p, found) = get_elem?-total s.seats seat (rw sound.table.four lt) in
    let allowed =
      Returns-at (legal_actions env s seat) (All (Permitted env s seat p))
        (legal_actions-Permitted env s sound seat p found lt) el in
    let permitted = contains-All (Permitted env s seat p) a legal allowed listed in
    record {
      lt = lt;
      player = p;
      found = found;
      permitted = permitted;
      dispatched = went;
      steps =
          Returns-at (dispatch env s seat a) (Steps env s a)
            (dispatch-Steps env s seat sound lt p a found permitted) went;
    }
