-- ===== src/Prelude/Counting.antt =====
-- How often a value occurs in a list, and sums over a list: the abstract view in which the order
-- of tiles is forgotten.
use Prim.Native.Nat.{ℕ, zero, suc, ◌+◌, ◌≤◌, ◌<◌}
use mathlib.Core.Path.{◌≡◌}
use mathlib.Core.Bool.{Bool, true, false, ◌||◌}
use mathlib.Core.List.{List, [], ◌∷◌, ◌++◌}
use mathlib.Core.Option.{some}
use native.Mathlib.Omega.{arith}
use mahjong_server_bot_zoo.Prelude.Tests.{Eq, ◌==◌, ==_iff, if◌then◌else◌}
use mahjong_server_bot_zoo.Prelude.Lists.{length, get_elem?, set, replicate, All}

module _ {ℓ} {A : Type ℓ} ⦃e : Eq A⦄ where
  -- 1 at `a`, 0 elsewhere.
  abbrev pub one : A → A → ℕ
  one a x = if x == a then 1 else 0

  abbrev pub count : A → List A → ℕ
  count a [] = 0
  count a (x ∷ xs) = one a x + count a xs

  -- `x in xs`
  abbrev pub contains : A → List A → Bool
  contains a [] = false
  contains a (x ∷ xs) = x == a || contains a xs

  pub count-append : (a : A) (xs ys : List A) → count a (xs ++ ys) ≡ count a xs + count a ys
  count-append a [] ys = omega arith
  count-append a (x ∷ xs) ys = omega (arith, count-append a xs ys)

  pub count-replicate : (a x : A) (n : ℕ) → count a (replicate n x) ≡ (if x == a then n else 0)
  count-replicate a x zero = ground arith
  count-replicate a x (suc n) = ground (arith, count-replicate a x n)

  pub count-le-length : (a : A) (xs : List A) → count a xs ≤ length xs
  count-le-length a [] = omega arith
  count-le-length a (x ∷ xs) = ground (arith, count-le-length a xs)

  pub contains-count : (a : A) (xs : List A) → contains a xs ≡ true → 0 < count a xs
  contains-count a [] h = cc
  contains-count a (x ∷ xs) h = ground (arith, contains-count a xs)

  pub count-contains : (a : A) (xs : List A) → 0 < count a xs → contains a xs ≡ true
  count-contains a [] h = elim h [ ]
  count-contains a (x ∷ xs) h = ground (arith, count-contains a xs)

  pub contains-All {κ} :
      (P : A → Type κ) (a : A) (xs : List A) → All P xs → contains a xs ≡ true → P a
  contains-All P a [] hs h = absurd (cc)
  contains-All P a (x ∷ xs) hs h = ground (arith, ==_iff x a, contains-All P a xs hs.1)

-- The sum of a measure over a list, and how it changes when one entry is replaced.
module _ {ℓ} {A : Type ℓ} (f : A → ℕ) where
  abbrev pub sum_by : List A → ℕ
  sum_by [] = 0
  sum_by (x ∷ xs) = f x + sum_by xs

  pub sum_by-append : (xs ys : List A) → sum_by (xs ++ ys) ≡ sum_by xs + sum_by ys
  sum_by-append [] ys = omega arith
  sum_by-append (x ∷ xs) ys = omega (arith, sum_by-append xs ys)

  pub sum_by-set :
      (xs : List A) (i : ℕ) (x y : A)
      → get_elem? xs i ≡ some x
      → sum_by (set xs i y) + f x ≡ sum_by xs + f y
  sum_by-set [] i x y h = cc
  sum_by-set (z ∷ xs) zero x y h = ground arith
  sum_by-set (z ∷ xs) (suc i) x y h = omega (arith, sum_by-set xs i x y h)
