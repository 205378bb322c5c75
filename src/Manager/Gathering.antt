-- ===== src/Manager/Gathering.antt =====
-- The answers of all claimers in `_step_claim_window` of mahjong/table/manager.py.
use mathlib.Core.Path.{subst, subst₂}
use mahjong_server_bot_zoo.Prelude.{
  ℕ, ◌<◌, ◌≡◌, ◌≢◌, inl, inr, refl, sym, ap, ◌∙◌, true, some, List, [], ◌∷◌, map, arith, eqb,
  eqb_iff, ltb, All, All-imp, Bool-cases, nat_eq,
}
use mahjong_server_bot_zoo.Prelude.Counting.{contains}
use mahjong_server_bot_zoo.Prelude.Every.{All-map}
use mahjong_server_bot_zoo.Prelude.Seq.{ok, Returns, Returns-bind, Returns-ok}
use mahjong_server_bot_zoo.State.{Action, LastDiscard, Phase}
use mahjong_server_bot_zoo.Rules.{Env}
use mahjong_server_bot_zoo.Transition.Invariant.{ClaimFits, PendingIsSound, IsSound}
use mahjong_server_bot_zoo.Records.{decision_of, only}
use mahjong_server_bot_zoo.Claims.{Answer}
use mahjong_server_bot_zoo.Claims.Default.{PromptKind}
use mahjong_server_bot_zoo.Manager.{
  Table, SeatResult, ask, ask_all, insert_new, sorted_set, claimers_of, lookup_result, action_of,
}
use mahjong_server_bot_zoo.Manager.Prompts.{DoesLegal, ask_claim-DoesLegal}

All-insert_new : (P : ℕ → Type 0) (x : ℕ) (xs : List ℕ) → P x → All P xs → All P (insert_new x xs)
All-insert_new P x [] h k = (h, tt)
All-insert_new P x (y ∷ ys) h k = elim (Bool-cases (eqb x y)) [
  | inl same ↦ rw same k
  | inr other ↦ elim (Bool-cases (ltb x y)) [
    | inl before ↦ rw (other, before) (h, k)
    | inr after ↦ rw (other, after) (k.0, All-insert_new P x ys h k.1)
  ]
]

All-sorted_set : (P : ℕ → Type 0) (xs : List ℕ) → All P xs → All P (sorted_set xs)
unfolding sorted_set
All-sorted_set P [] h = tt
All-sorted_set P (x ∷ xs) h = All-insert_new P x (sorted_set xs) h.0 (All-sorted_set P xs h.1)

contains-insert_new :
    (a x : ℕ) (xs : List ℕ) → contains a (x ∷ xs) ≡ true → contains a (insert_new x xs) ≡ true
contains-insert_new a x [] h = h
contains-insert_new a x (y ∷ ys) h = ground (arith, contains-insert_new a x ys)

-- Nobody who is waited for is left out.
pub contains-sorted_set :
    (a : ℕ) (xs : List ℕ) → contains a xs ≡ true → contains a (sorted_set xs) ≡ true
unfolding sorted_set
contains-sorted_set a [] h = h
contains-sorted_set a (x ∷ xs) h =
    contains-insert_new a x (sorted_set xs) (ground (arith, contains-sorted_set a xs))

-- What was gathered: each claimer's result, which asking it again would give again.
pub record Gathered (env : Env) (answers : ℕ → Answer) (T : Table) (claimers : List ℕ)
    (rs : List SeatResult) : Type 0 where
  pub seats : map (λ r. r.seat) rs ≡ claimers
  pub asked : All (λ r. ask env answers T PromptKind.claim r.seat ≡ ok r) rs
  pub legal : All (λ r. DoesLegal env T.state r.seat r) rs

-- Who is among the claimers is looked up as itself.
pub record LookedUp (rs : List SeatResult) (r : SeatResult) : Type 0 where
  pub result : lookup_result r.seat rs ≡ ok r
  pub action : action_of rs r.seat ≡ r.action
  pub decision :
      only (λ d. eqb d.seat r.seat) (map (λ x. decision_of x.seat x.action) rs)
      ≡ ok (decision_of r.seat r.action)

module _ (env : Env) (answers : ℕ → Answer) (T : Table) where
  pub ask_all-Gathered :
      (claimers : List ℕ)
      → All (λ i. Returns (ask env answers T PromptKind.claim i) (DoesLegal env T.state i)) claimers
      → Returns (ask_all env answers T claimers) (Gathered env answers T claimers)
  unfolding ask_all
  ask_all-Gathered [] h = record { seats = refl; asked = tt; legal = tt }
  ask_all-Gathered (i ∷ claimers) h =
      let (r, e, does) = Returns-ok (ask env answers T PromptKind.claim i) _ h.0 in
      let own = does.own in
      rw e (
        Returns-bind (ask_all env answers T claimers) _ (Gathered env answers T claimers) _
          (ask_all-Gathered claimers h.1)
          λ rs g. record {
            seats = rw (own, g.seats) refl;
            asked = (subst (λ j. ask env answers T PromptKind.claim j ≡ ok r) (sym own) e, g.asked);
            legal = (subst (λ j. DoesLegal env T.state j r) (sym own) does, g.legal);
          })

  same_result :
      (x r : SeatResult)
      → x.seat ≡ r.seat
      → ask env answers T PromptKind.claim x.seat ≡ ok x
      → ask env answers T PromptKind.claim r.seat ≡ ok r
      → x ≡ r
  same_result x r e hx hr =
      let again : ask env answers T PromptKind.claim x.seat ≡ ok r =
        subst (λ i. ask env answers T PromptKind.claim i ≡ ok r) (sym e) hr in
      let k : ok x ≡ ok r = sym hx ∙ again in cc

  decision_seat : (seat : ℕ) (a : Action) → (decision_of seat a).seat ≡ seat
  decision_seat seat (Action.chi ts) = refl
  decision_seat seat a = refl

  pub look_up :
      (rs : List SeatResult) (r : SeatResult)
      → All (λ x. ask env answers T PromptKind.claim x.seat ≡ ok x) rs
      → ask env answers T PromptKind.claim r.seat ≡ ok r
      → contains r.seat (map (λ x. x.seat) rs) ≡ true
      → LookedUp rs r
  unfolding lookup_result action_of
  look_up [] r all e h = absurd (cc)
  look_up (x ∷ rs) r all e h = elim (Bool-cases (eqb x.seat r.seat)) [
    | inl this ↦
        let same : x ≡ r = same_result x r ((eqb_iff x.seat r.seat).0 this) all.0 e in
        record {
          result = rw this (ap ok same);
          action = rw this (ap (λ y. y.action) same);
          decision =
              rw (decision_seat x.seat x.action, this)
                (ap (λ y. ok (decision_of y.seat y.action)) same);
        }
    | inr other ↦
        let later = look_up rs r all.1 e (ground arith) in
        record {
          result = rw other later.result;
          action = rw other later.action;
          decision = rw (decision_seat x.seat x.action, other) later.decision;
        }
  ]

-- The number of every entry is among the numbers.
pub All-among :
    {A : Type 0} (f : A → ℕ) (xs : List A) → All (λ x. contains (f x) (map f xs) ≡ true) xs
All-among f [] = tt
All-among f (x ∷ xs) = (
  ground (arith, eqb_iff (f x) (f x)),
  All-imp (λ y. contains (f y) (map f xs) ≡ true) (λ y. contains (f y) (map f (x ∷ xs)) ≡ true) xs
      (λ y h. ground arith) (All-among f xs),
)

pub All-unmap :
    (P : ℕ → Type 0) (rs : List SeatResult) → All P (map (λ r. r.seat) rs) → All (λ r. P r.seat) rs
All-unmap P [] h = tt
All-unmap P (x ∷ rs) h = (h.0, All-unmap P rs h.1)

module _ (env : Env) (answers : ℕ → Answer) (T : Table) (sound : IsSound env T.state)
    (last : LastDiscard) (phase : T.state.phase ≡ Phase.claim_window)
    (opened : T.state.last_discard ≡ some last) where
  -- On a sound state in the claim window all claimers are asked, and each does something legal.
  pub claimers-Gathered :
      Returns
        (ask_all env answers T (claimers_of T.state.pending_claims))
        (Gathered env answers T (claimers_of T.state.pending_claims))
  claimers-Gathered =
      let fits : All (ClaimFits last) T.state.pending_claims =
        (subst₂ (λ ph o. PendingIsSound ph o T.state.pending_claims) phase opened
          sound.pending).1 in
      let May : ℕ → Type 0 = λ i. (i < 4) × (i ≢ last.seat) in
      ask_all-Gathered env answers T (claimers_of T.state.pending_claims) (
        All-imp May (λ i. Returns (ask env answers T PromptKind.claim i) (DoesLegal env T.state i))
          (claimers_of T.state.pending_claims)
          (λ i h. ask_claim-DoesLegal env answers T sound i last phase opened h.0 h.1)
          (All-sorted_set May (map (λ c. c.seat) T.state.pending_claims)
            (All-map May (λ c. c.seat) T.state.pending_claims fits)))
