-- ===== src/Transition/Correct.antt =====
-- `apply_action` of mahjong/engine/transition/__init__.py as a whole.
use mathlib.Core.Path.{subst}
use mahjong_server_bot_zoo.Prelude.{
  ℕ, ◌+◌, ◌%◌, ◌≤◌, ◌<◌, ◌≡◌, ◌≢◌, ◌⊎◌, inl, inr, refl, false, Option, none, some, List, arith, eqb,
  leb, get_elem?, get_elem?-total, All, All-imp, Bool-cases,
}
use mahjong_server_bot_zoo.Prelude.Counting.{contains, contains-All}
use mahjong_server_bot_zoo.Prelude.Seq.{
  Result, ok, err, illegal_action, guard, ◌>>=◌, ◌>>◌, Returns, Returns-imp,
}
use mahjong_server_bot_zoo.State.{Action, GangKind, action_eq, Seat, LastDiscard, Phase, GameState}
use mahjong_server_bot_zoo.Tiles.{Tile}
use mahjong_server_bot_zoo.Rules.{Env}
use mahjong_server_bot_zoo.Legality.{actions_in, legal_actions, discard_actions, claim_actions}
use mahjong_server_bot_zoo.Legality.Justified.{
  MayDiscard, discard_actions-All, MayClaim, claim_actions-All,
}
use mahjong_server_bot_zoo.Transition.{dispatch, apply_action, apply_gang}
use mahjong_server_bot_zoo.Transition.Invariant.{
  tally, scores, work, TurnIsSound, IsSound, Continues,
}
use mahjong_server_bot_zoo.Transition.Discarding.{apply_play-Continues, Settles, Continues-Settles}
use mahjong_server_bot_zoo.Transition.Claimed.{open_discard}
use mahjong_server_bot_zoo.Transition.Claiming.{
  apply_peng-Continues, apply_chi-Continues, gang_exposed-Continues, apply_pass-Settles,
}
use mahjong_server_bot_zoo.Transition.Kongs.{gang_concealed-Continues, gang_added-Continues}
use mahjong_server_bot_zoo.Transition.Winning.{self_drawn, on_discard, apply_hu-Continues}

-- By the rules the seat may do this now.
pub data Permitted (env : Env) (s : GameState) (seat : ℕ) (p : Seat) (a : Action) : Type 0 where
  on_turn :
      s.phase ≡ Phase.discard
      → s.current_actor ≡ seat
      → MayDiscard env s seat p a
      → Permitted env s seat p a
  on_claim :
      (last : LastDiscard)
      → s.phase ≡ Phase.claim_window
      → s.last_discard ≡ some last
      → seat ≢ last.seat
      → MayClaim env s (eqb seat ((last.seat + 1) % 4)) last.tile p a
      → Permitted env s seat p a

closed_of :
    (actor : ℕ) (o : Option LastDiscard) (seats : List Seat)
    → TurnIsSound Phase.discard actor o seats
    → o ≡ none
closed_of actor none seats h = refl
closed_of actor (some last) seats h = absurd h

opened_of :
    (actor : ℕ) (o : Option LastDiscard) (seats : List Seat)
    → TurnIsSound Phase.claim_window actor o seats
    → (last : LastDiscard) × (o ≡ some last)
opened_of actor none seats h = absurd h
opened_of actor (some last) seats h = (last, refl)

module _ (env : Env) (s : GameState) (sound : IsSound env s) where
  closed_at : s.phase ≡ Phase.discard → s.last_discard ≡ none
  closed_at phase =
      closed_of s.current_actor s.last_discard s.seats
        (subst (λ ph. TurnIsSound ph s.current_actor s.last_discard s.seats) phase sound.turn)

  pub opened_at : s.phase ≡ Phase.claim_window → (last : LastDiscard) × (s.last_discard ≡ some last)
  opened_at phase =
      opened_of s.current_actor s.last_discard s.seats
        (subst (λ ph. TurnIsSound ph s.current_actor s.last_discard s.seats) phase sound.turn)

  module _ (seat : ℕ) (p : Seat) (found : get_elem? s.seats seat ≡ some p) where
    actions_in-Permitted :
        (ph : Phase)
        → s.phase ≡ ph
        → Returns (actions_in env ph s seat) (All (Permitted env s seat p))
    actions_in-Permitted Phase.discard e =
        Returns-imp (discard_actions env s seat) _ (All (Permitted env s seat p))
          (λ l k. All-imp _ (Permitted env s seat p) l (λ a m. on_turn e m.0 m.1) k)
          (discard_actions-All env s seat p sound.table found)
    actions_in-Permitted Phase.claim_window e =
        let (last, opened) = opened_at e in
        Returns-imp (claim_actions env s seat) _ (All (Permitted env s seat p))
          (λ l k. All-imp _ (Permitted env s seat p) l (λ a m. on_claim last e opened m.0 m.1) k)
          (claim_actions-All env s seat p last sound.table opened found)
    actions_in-Permitted ph e = tt

    -- On a sound state the legal actions of a seat are listed, and each is permitted by the rules.
    pub legal_actions-Permitted :
        seat < 4 → Returns (legal_actions env s seat) (All (Permitted env s seat p))
    unfolding legal_actions
    legal_actions-Permitted lt =
        let small : leb 4 seat ≡ false = ground arith in
        rw small (actions_in-Permitted s.phase refl)

    -- A permitted action other than PASS returns and advances the hand.
    pub dispatch-Continues :
        (a : Action)
        → seat < 4
        → a ≢ Action.pass
        → Permitted env s seat p a
        → Returns (dispatch env s seat a) (Continues env s)
    unfolding apply_gang
    dispatch-Continues Action.pass lt ne h = absurd (ne refl)
    dispatch-Continues (Action.play t) lt ne (on_turn ph mine m) =
        apply_play-Continues env s seat t p sound ph mine lt found m
    dispatch-Continues (Action.gang t GangKind.concealed) lt ne (on_turn ph mine m) =
        gang_concealed-Continues env s seat p sound ph mine lt found (closed_at ph) t m.0
    dispatch-Continues (Action.gang t GangKind.added) lt ne (on_turn ph mine m) =
        gang_added-Continues env s seat p sound ph mine lt found (closed_at ph) t m.0 m.1
    dispatch-Continues Action.hu lt ne (on_turn ph mine (d, drawn, own, (c, resolves, wins))) =
        apply_hu-Continues env s seat p sound lt found (self_drawn d ph drawn own wins.held)
    dispatch-Continues Action.hu lt ne (on_claim last ph opened other m) =
        apply_hu-Continues env s seat p sound lt found
          (on_discard last ph opened (open_discard env s last sound ph opened).0 other)
    dispatch-Continues (Action.peng t) lt ne (on_claim last ph opened other m) =
        apply_peng-Continues env s last seat p sound ph opened other lt found t m.0 m.1
    dispatch-Continues (Action.gang t GangKind.exposed) lt ne (on_claim last ph opened other m) =
        gang_exposed-Continues env s last seat p sound ph opened other lt found t m.0 m.1
    dispatch-Continues (Action.chi ts) lt ne (on_claim last ph opened other m) =
        apply_chi-Continues env s last seat p sound ph opened other lt found ts m.1
    dispatch-Continues (Action.play t) lt ne (on_claim last ph opened other m) = absurd m
    dispatch-Continues (Action.gang t GangKind.concealed) lt ne (on_claim last ph opened other m) =
        absurd m
    dispatch-Continues (Action.gang t GangKind.added) lt ne (on_claim last ph opened other m) =
        absurd m
    dispatch-Continues (Action.gang t GangKind.exposed) lt ne (on_turn ph mine m) = absurd m
    dispatch-Continues (Action.peng t) lt ne (on_turn ph mine m) = absurd m
    dispatch-Continues (Action.chi ts) lt ne (on_turn ph mine m) = absurd m

    pass-Settles :
        Permitted env s seat p Action.pass
        → Returns (dispatch env s seat Action.pass) (Settles env s)
    pass-Settles (on_turn ph mine m) = absurd m
    pass-Settles (on_claim last ph opened other m) =
        apply_pass-Settles env s last sound ph opened seat

-- The call returns a state that satisfies `P`, or raises IllegalAction and nothing else.
abbrev pub ReturnsOrIllegal : Result GameState → (GameState → Type 0) → Type 0
ReturnsOrIllegal (ok t) P = P t
ReturnsOrIllegal (err e) P = e ≡ illegal_action

Returns-OrIllegal :
    (m : Result GameState) (P Q : GameState → Type 0)
    → ((t : GameState) → P t → Q t)
    → Returns m P
    → ReturnsOrIllegal m Q
Returns-OrIllegal (ok t) P Q f p = f t p
Returns-OrIllegal (err e) P Q f p = absurd p

ReturnsOrIllegal-imp :
    (m : Result GameState) (P Q : GameState → Type 0)
    → ((t : GameState) → P t → Q t)
    → ReturnsOrIllegal m P
    → ReturnsOrIllegal m Q
ReturnsOrIllegal-imp (ok t) P Q f p = f t p
ReturnsOrIllegal-imp (err e) P Q f p = p

-- What every action keeps, and what every action but PASS gains.
pub record Steps (env : Env) (s : GameState) (a : Action) (t : GameState) : Type 0 where
  pub settles : Settles env s t
  pub advances : a ≢ Action.pass → Continues env s t

module _ (env : Env) (s : GameState) (seat : ℕ) (sound : IsSound env s) (lt : seat < 4) where
  pub dispatch-Steps :
      (p : Seat) (a : Action)
      → get_elem? s.seats seat ≡ some p
      → Permitted env s seat p a
      → Returns (dispatch env s seat a) (Steps env s a)
  dispatch-Steps p Action.pass found h =
      Returns-imp (dispatch env s seat Action.pass) (Settles env s) (Steps env s Action.pass)
        (λ t c. record { settles = c; advances = λ ne. absurd (ne refl) })
        (pass-Settles env s sound seat p found h)
  dispatch-Steps p a found h =
      Returns-imp (dispatch env s seat a) (Continues env s) (Steps env s a)
        (λ t c. record { settles = Continues-Settles env c; advances = λ ne. c })
        (dispatch-Continues env s sound seat p found a lt (λ e. cc) h)

  guarded :
      (p : Seat) (a : Action) (legal : List Action)
      → get_elem? s.seats seat ≡ some p
      → All (Permitted env s seat p) legal
      → ReturnsOrIllegal
          (guard (contains a legal) illegal_action >> dispatch env s seat a)
          (Steps env s a)
  guarded p a legal found h = elim (Bool-cases (contains a legal)) [
    | inr refused ↦ rw refused refl
    | inl listed ↦ rw listed (
        Returns-OrIllegal (dispatch env s seat a) (Steps env s a) (Steps env s a) (λ t k. k)
          (dispatch-Steps p a found (contains-All (Permitted env s seat p) a legal h listed)))
  ]

  bound :
      (m : Result (List Action)) (P : List Action → Type 0) (f : List Action → Result GameState)
      (Q : GameState → Type 0)
      → Returns m P
      → ((l : List Action) → P l → ReturnsOrIllegal (f l) Q)
      → ReturnsOrIllegal (m >>= f) Q
  bound (ok l) P f Q h k = k l h
  bound (err e) P f Q h k = absurd h

  apply_action-Steps : (a : Action) → ReturnsOrIllegal (apply_action env s seat a) (Steps env s a)
  unfolding apply_action
  apply_action-Steps a =
      let (p, found) = get_elem?-total s.seats seat (rw sound.table.four lt) in
      bound (legal_actions env s seat) (All (Permitted env s seat p)) _ (Steps env s a)
        (legal_actions-Permitted env s sound seat p found lt) (λ legal h. guarded p a legal found h)

ReturnsOrIllegal-ok :
    (m : Result GameState) (Q : GameState → Type 0) {t : GameState}
    → ReturnsOrIllegal m Q
    → m ≡ ok t
    → Q t
ReturnsOrIllegal-ok (ok u) Q {t} h e = let same : u ≡ t = cc in subst Q same h
ReturnsOrIllegal-ok (err e) Q h k = absurd (cc)

-- On a sound state, for each of the four seats and any action, `apply_action` returns a sound
-- state or raises IllegalAction: no other exception of the engine can occur.
pub apply_action-IsSound :
    (env : Env) (s : GameState) (seat : ℕ) (a : Action)
    → IsSound env s
    → seat < 4
    → ReturnsOrIllegal (apply_action env s seat a) (IsSound env)
apply_action-IsSound env s seat a sound lt =
    ReturnsOrIllegal-imp (apply_action env s seat a) (Steps env s a) (IsSound env)
      (λ t h. h.settles.sound) (apply_action-Steps env s seat sound lt a)

-- An action on a sound state that is applied leaves on the table the same number of copies of
-- every tile, and leaves the sum of the scores as it was.
pub apply_action-Conserves :
    (env : Env) (s : GameState) (seat : ℕ) (a : Action) (t : GameState)
    → IsSound env s
    → seat < 4
    → apply_action env s seat a ≡ ok t
    → ((x : Tile) → tally x t ≡ tally x s) × (scores t.seats ≡ scores s.seats)
apply_action-Conserves env s seat a t sound lt e =
    let h = ReturnsOrIllegal-ok _ (Steps env s a) (apply_action-Steps env s seat sound lt a) e in
    (h.settles.conserves.tiles, h.settles.conserves.scored)

-- An action other than PASS that is applied to a sound state ends the hand or lowers what is left
-- to play: twice the tiles of the wall and the tiles in the hands. No action raises it.
pub apply_action-work :
    (env : Env) (s : GameState) (seat : ℕ) (a : Action) (t : GameState)
    → IsSound env s
    → seat < 4
    → apply_action env s seat a ≡ ok t
    → (work t ≤ work s) × (a ≢ Action.pass → (work t < work s) ⊎ (t.phase ≡ Phase.terminal))
apply_action-work env s seat a t sound lt e =
    let h = ReturnsOrIllegal-ok _ (Steps env s a) (apply_action-Steps env s seat sound lt a) e in
    (h.settles.no_more, λ ne. (h.advances ne).advances.1)
