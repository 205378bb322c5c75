-- ===== src/Claims/Priority.antt =====
-- Which claim wins in mahjong/table/manager.py.
use mahjong_server_bot_zoo.Prelude.{
  ℕ, suc, ◌<◌, ◌≤◌, ◌≡◌, inl, inr, refl, ap, true, false, Option, none, some, List, [], ◌∷◌, ◌++◌,
  arith, eqb, All, All-imp, Bool-cases,
}
use mahjong_server_bot_zoo.Prelude.Counting.{contains, contains-All}
use mahjong_server_bot_zoo.State.{Action, action_eq, ClaimType}
use mahjong_server_bot_zoo.Claims.Defs.{
  is_type, first_of, or_else, resolve_claim_priority, Answer, decided, timed_out, crashed,
  decide_or_default,
}

-- The order of claims: HU, PENG, GANG, CHI, and then what is no claim.
abbrev pub rank : Action → ℕ
rank Action.hu = 0
rank (Action.peng t) = 1
rank (Action.gang t k) = 2
rank (Action.chi ts) = 3
rank action = 4

abbrev pub claim_rank : ClaimType → ℕ
claim_rank ClaimType.hu = 0
claim_rank ClaimType.peng = 1
claim_rank ClaimType.gang = 2
claim_rank ClaimType.chi = 3

is_type_rank : (kind : ClaimType) (a : Action) → is_type kind a ≡ eqb (rank a) (claim_rank kind)
is_type_rank kind a = ground arith

is_type_eq : (kind : ClaimType) (a : Action) → is_type kind a ≡ true → rank a ≡ claim_rank kind
is_type_eq kind a h = let e = is_type_rank kind a in ground arith

is_type_ne :
    (kind : ClaimType) (a : Action)
    → is_type kind a ≡ false
    → claim_rank kind ≤ rank a
    → claim_rank kind < rank a
is_type_ne kind a h k = let e = is_type_rank kind a in ground arith

claim_rank_lt : (kind : ClaimType) (a : Action) → rank a ≡ claim_rank kind → rank a < 4
claim_rank_lt kind a h = ground arith

no_claim : (a : Action) → 4 ≤ rank a → rank a ≡ 4
no_claim a h = ground arith

-- The winner claims, no claimer before it has as good a claim, and none after it a better one.
pub record Wins (claimers : List ℕ) (results : ℕ → Action) (seat : ℕ) (a : Action) : Type 0 where
  pub before : List ℕ
  pub after : List ℕ
  pub split : claimers ≡ before ++ seat ∷ after
  pub own : a ≡ results seat
  pub claims : rank a < 4
  pub ahead : All (λ o. rank a < rank (results o)) before
  pub behind : All (λ o. rank a ≤ rank (results o)) after

abbrev pub IsResolved : List ℕ → (ℕ → Action) → Option (ℕ × Action) → Type 0
IsResolved claimers results none = All (λ o. rank (results o) ≡ 4) claimers
IsResolved claimers results (some (seat, a)) = Wins claimers results seat a

module _ (results : ℕ → Action) (kind : ClaimType) where
  abbrev AtLeast : ℕ → List ℕ → Type 0
  AtLeast n claimers = All (λ o. n ≤ rank (results o)) claimers

  -- What the search for one kind finds, where no claimer has a better kind.
  abbrev Found : List ℕ → Option (ℕ × Action) → Type 0
  Found claimers none = AtLeast (suc (claim_rank kind)) claimers
  Found claimers (some (seat, a)) = Wins claimers results seat a × (rank a ≡ claim_rank kind)

  Found-later :
      (seat : ℕ) (claimers : List ℕ) (o : Option (ℕ × Action))
      → claim_rank kind < rank (results seat)
      → Found claimers o
      → Found (seat ∷ claimers) o
  Found-later seat claimers none h f = (h, f)
  Found-later seat claimers (some (w, a)) h (f, e) = (
    record {
      before = seat ∷ f.before;
      after = f.after;
      split = ap (λ l. seat ∷ l) f.split;
      own = f.own;
      claims = f.claims;
      ahead = (rw e h, f.ahead);
      behind = f.behind;
    },
    e,
  )

  first_of-Found :
      (claimers : List ℕ)
      → AtLeast (claim_rank kind) claimers
      → Found claimers (first_of kind results claimers)
  unfolding first_of
  first_of-Found [] h = tt
  first_of-Found (seat ∷ claimers) h = elim (Bool-cases (is_type kind (results seat))) [
    | inl this ↦ rw this (
        let e : rank (results seat) ≡ claim_rank kind = is_type_eq kind (results seat) this in
        (
          record {
            before = [];
            after = claimers;
            split = refl;
            own = refl;
            claims = claim_rank_lt kind (results seat) e;
            ahead = tt;
            behind = rw e h.1;
          },
          e,
        ))
    | inr other ↦ rw other (
        Found-later seat claimers (first_of kind results claimers)
          (is_type_ne kind (results seat) other h.0) (first_of-Found claimers h.1))
  ]

  first_or_later :
      (claimers : List ℕ) (o later : Option (ℕ × Action))
      → Found claimers o
      → (AtLeast (suc (claim_rank kind)) claimers → IsResolved claimers results later)
      → IsResolved claimers results (or_else o later)
  first_or_later claimers none later f g = g f
  first_or_later claimers (some w) later f g = f.0

rank-AtLeast : (results : ℕ → Action) (claimers : List ℕ) → All (λ o. 0 ≤ rank (results o)) claimers
rank-AtLeast results [] = tt
rank-AtLeast results (o ∷ claimers) = (omega arith, rank-AtLeast results claimers)

pub resolve_claim_priority-IsResolved :
    (claimers : List ℕ) (results : ℕ → Action)
    → IsResolved claimers results (resolve_claim_priority claimers results)
unfolding resolve_claim_priority
resolve_claim_priority-IsResolved claimers results =
    first_or_later results ClaimType.hu claimers _ _
      (first_of-Found results ClaimType.hu claimers (rank-AtLeast results claimers))
      λ h1.
        first_or_later results ClaimType.peng claimers _ _
          (first_of-Found results ClaimType.peng claimers h1)
          λ h2.
            first_or_later results ClaimType.gang claimers _ _
              (first_of-Found results ClaimType.gang claimers h2)
              λ h3.
                first_or_later results ClaimType.chi claimers _ none
                  (first_of-Found results ClaimType.chi claimers h3)
                  λ h4.
                    All-imp (λ o. 4 ≤ rank (results o)) (λ o. rank (results o) ≡ 4) claimers
                      (λ o h. no_claim (results o) h) h4

-- Whatever an adapter answers, the action taken satisfies what every legal action and the default
-- action satisfy.
pub decide_or_default_lem :
    (P : Action → Type 0) (answer : Answer) (legal : List Action) (default_action : Action)
    → All P legal
    → P default_action
    → P (decide_or_default answer legal default_action).0
unfolding decide_or_default
decide_or_default_lem P timed_out legal d h k = k
decide_or_default_lem P crashed legal d h k = k
decide_or_default_lem P (decided a) legal d h k = elim (Bool-cases (contains a legal)) [
  | inl listed ↦ rw listed (contains-All P a legal h listed)
  | inr refused ↦ rw refused k
]
