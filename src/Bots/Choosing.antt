-- ===== src/Bots/Choosing.antt =====
-- The loops and minima of mahjong/bots/v0.py: they return, and what they pick was on the list.
use mathlib.Core.Path.{subst}
use mahjong_server_bot_zoo.Prelude.{
  ◌<◌, ◌≡◌, inl, inr, refl, sym, ap, Bool, true, false, List, [], ◌∷◌, arith, if◌then◌else◌, length,
  keep, All, All-imp, Bool-cases,
}
use mahjong_server_bot_zoo.Prelude.Int.{ℤ, pos, negsuc, ◌≤ℤ◌}
use mahjong_server_bot_zoo.Prelude.Seq.{Result, ok, Returns, Returns-bind, >>=-ok}
use mahjong_server_bot_zoo.Bots.{traverse, least, least_from, lt_ℤ, eq_ℤ}

module _ {A B : Type 0} (f : A → Result B) (P : A → Type 0) (Q : B → Type 0) where
  -- Every call returns, so all do.
  pub traverse-Returns :
      (xs : List A)
      → All P xs
      → ((a : A) → P a → Returns (f a) Q)
      → Returns (traverse f xs) (λ ys. All Q ys × (length ys ≡ length xs))
  unfolding traverse
  traverse-Returns [] h call = (tt, refl)
  traverse-Returns (x ∷ xs) h call = Returns-bind (f x) _ Q _ (call x h.0) λ y q.
      Returns-bind (traverse f xs) _ (λ ys. All Q ys × (length ys ≡ length xs)) _
        (traverse-Returns xs h.1 call) (λ ys qs. ((q, qs.0), omega (arith, qs.1)))

-- What holds of every result holds of the result of each call.
pub traverse_back :
    {A B : Type 0} (f : A → Result B) (Q : B → Type 0) (xs : List A) (ys : List B)
    → traverse f xs ≡ ok ys
    → All Q ys
    → All (λ x. (y : B) → f x ≡ ok y → Q y) xs
unfolding traverse
traverse_back f Q [] ys e h = tt
traverse_back f Q (x ∷ xs) ys e h =
    let (y, e1, rest) = >>=-ok (f x) _ e in
    let (zs, e2, e3) = >>=-ok (traverse f xs) _ rest in
    let same : ys ≡ y ∷ zs = cc in
    let all : All Q (y ∷ zs) = subst (All Q) same h in
    ((λ z k. let here : y ≡ z = cc in subst Q here all.0), traverse_back f Q xs zs e2 all.1)

module _ {A : Type 0} (lt : A → A → Bool) (P : A → Type 0) where
  least_from_keeps : (best : A) (xs : List A) → P best → All P xs → P (least_from lt best xs)
  unfolding least_from
  least_from_keeps best [] p h = p
  least_from_keeps best (x ∷ xs) p h = elim (Bool-cases (lt x best)) [
    | inl less ↦ rw less (least_from_keeps x xs h.0 h.1)
    | inr more ↦ rw more (least_from_keeps best xs p h.1)
  ]

  -- A minimum of a list that is not empty is one of its entries.
  pub least-Returns : (xs : List A) → 0 < length xs → All P xs → Returns (least lt xs) P
  unfolding least
  least-Returns [] some_left h = absurd (omega arith)
  least-Returns (x ∷ xs) some_left h = least_from_keeps x xs h.0 h.1

pub eq_ℤ_refl : (a : ℤ) → eq_ℤ a a ≡ true
eq_ℤ_refl (pos n) = ground arith
eq_ℤ_refl (negsuc n) = ground arith

pub eq_ℤ-eq : (a b : ℤ) → eq_ℤ a b ≡ true → a ≡ b
eq_ℤ-eq (pos m) (pos n) h = ground arith
eq_ℤ-eq (negsuc m) (negsuc n) h = ground arith
eq_ℤ-eq (pos m) (negsuc n) h = absurd (cc)
eq_ℤ-eq (negsuc m) (pos n) h = absurd (cc)

pub lt_ℤ-le : (a b : ℤ) → lt_ℤ a b ≡ true → a ≤ℤ b
lt_ℤ-le (pos m) (pos n) h = ground arith
lt_ℤ-le (pos m) (negsuc n) h = absurd (cc)
lt_ℤ-le (negsuc m) (pos n) h = omega arith
lt_ℤ-le (negsuc m) (negsuc n) h = ground arith

pub lt_ℤ-ge : (a b : ℤ) → lt_ℤ a b ≡ false → b ≤ℤ a
lt_ℤ-ge (pos m) (pos n) h = ground arith
lt_ℤ-ge (pos m) (negsuc n) h = omega arith
lt_ℤ-ge (negsuc m) (pos n) h = absurd (cc)
lt_ℤ-ge (negsuc m) (negsuc n) h = ground arith

pub le_ℤ_trans : (a b c : ℤ) → a ≤ℤ b → b ≤ℤ c → a ≤ℤ c
le_ℤ_trans a b c h k = omega arith

le-All : (b c : ℤ) (xs : List ℤ) → b ≤ℤ c → All (λ d. c ≤ℤ d) xs → All (λ d. b ≤ℤ d) xs
le-All b c xs le h = All-imp (λ d. c ≤ℤ d) (λ d. b ≤ℤ d) xs (λ d k. le_ℤ_trans b c d le k) h

-- It is no greater than its start and than any of the others.
least_from_le :
    (best : ℤ) (xs : List ℤ)
    → (least_from lt_ℤ best xs ≤ℤ best) × All (λ d. least_from lt_ℤ best xs ≤ℤ d) xs
unfolding least_from
least_from_le best [] = (omega arith, tt)
least_from_le best (x ∷ xs) =
    let step : Bool → ℤ = λ b. least_from lt_ℤ (if b then x else best) xs in
    let IsLeast : ℤ → Type 0 = λ m. (m ≤ℤ best) × All (λ d. m ≤ℤ d) (x ∷ xs) in
    elim (Bool-cases (lt_ℤ x best)) [
      | inl less ↦
          let (start, rest) = least_from_le x xs in
          subst IsLeast (sym (ap step less))
            (le_ℤ_trans _ x best start (lt_ℤ-le x best less), (start, rest))
      | inr more ↦
          let (start, rest) = least_from_le best xs in
          subst IsLeast (sym (ap step more))
            (start, (le_ℤ_trans _ best x start (lt_ℤ-ge x best more), rest))
    ]

pub least-le :
    (P : ℤ → Type 0) (xs : List ℤ)
    → 0 < length xs
    → All P xs
    → Returns (least lt_ℤ xs) (λ b. P b × All (λ d. b ≤ℤ d) xs)
unfolding least
least-le P [] some_left h = absurd (omega arith)
least-le P (x ∷ xs) some_left h = (least_from_keeps lt_ℤ P x xs h.0 h.1, least_from_le x xs)

module _ {A : Type 0} (key : A → ℤ) where
  more_kept :
      (d : ℤ) (x : A) (xs : List A)
      → 0 < length (keep (λ y. eq_ℤ (key y) d) xs)
      → 0 < length (keep (λ y. eq_ℤ (key y) d) (x ∷ xs))
  more_kept d x xs h = ground arith

  -- Some entry has the key of an entry.
  pub own_kept : (xs : List A) → All (λ x. 0 < length (keep (λ y. eq_ℤ (key y) (key x)) xs)) xs
  own_kept [] = tt
  own_kept (x ∷ xs) = (
    ground (arith, eq_ℤ_refl (key x)),
    All-imp (λ y. 0 < length (keep (λ z. eq_ℤ (key z) (key y)) xs)) _ xs
        (λ y h. more_kept (key y) x xs h) (own_kept xs),
  )

pub lt_ℤ_trans : (a b c : ℤ) → lt_ℤ a b ≡ true → lt_ℤ b c ≡ true → lt_ℤ a c ≡ true
lt_ℤ_trans (pos a) (pos b) (pos c) h k = ground arith
lt_ℤ_trans (pos a) (pos b) (negsuc c) h k = absurd (cc)
lt_ℤ_trans (pos a) (negsuc b) c h k = absurd (cc)
lt_ℤ_trans (negsuc a) b (pos c) h k = refl
lt_ℤ_trans (negsuc a) (pos b) (negsuc c) h k = absurd (cc)
lt_ℤ_trans (negsuc a) (negsuc b) (negsuc c) h k = ground arith
