-- ===== src/Prelude/Sorting.antt =====
-- Python's stable sort, as an insertion sort over the comparison of keys.
use Prim.Native.Nat.{suc}
use mathlib.Core.Path.{◌≡◌, refl, ◌∙◌, ap}
use mathlib.Core.Logic.{inl, inr}
use mathlib.Core.Bool.{Bool, true, false, ◌&&◌}
use mathlib.Core.List.{List, [], ◌∷◌}
use native.Mathlib.Omega.{arith}
use mahjong_server_bot_zoo.Prelude.Tests.{Eq, if◌then◌else◌, Bool-cases}
use mahjong_server_bot_zoo.Prelude.Lists.{length, All}
use mahjong_server_bot_zoo.Prelude.Counting.{count}

module _ {ℓ} {A : Type ℓ} (le : A → A → Bool) where
  -- Before the first entry that is not smaller, so equal keys keep their order.
  pub insert : A → List A → List A
  insert x [] = x ∷ []
  insert x (y ∷ ys) = if le x y then x ∷ y ∷ ys else y ∷ insert x ys

  -- `sorted(xs)`
  unfoldable pub sort : List A → List A
  unfolding insert
  sort [] = []
  sort (x ∷ xs) = insert x (sort xs)

  -- No entry is smaller than the one before it.
  unfoldable pub sorted_from : A → List A → Bool
  sorted_from x [] = true
  sorted_from x (y ∷ ys) = le x y && sorted_from y ys

  abbrev pub is_sorted : List A → Bool
  is_sorted [] = true
  is_sorted (x ∷ xs) = sorted_from x xs

module _ {ℓ} {A : Type ℓ} (le : A → A → Bool) where
  length-insert : (x : A) (xs : List A) → length (insert le x xs) ≡ suc (length xs)
  unfolding insert
  length-insert x [] = refl
  length-insert x (y ∷ ys) = ground (arith, length-insert x ys)

  pub length-sort : (xs : List A) → length (sort le xs) ≡ length xs
  unfolding sort
  length-sort [] = refl
  length-sort (x ∷ xs) = length-insert x (sort le xs) ∙ ap suc (length-sort xs)

  count-insert : ⦃e : Eq A⦄ (a x : A) (xs : List A) → count a (insert le x xs) ≡ count a (x ∷ xs)
  unfolding insert
  count-insert a x [] = refl
  count-insert a x (y ∷ ys) = elim (Bool-cases (le x y)) [
    | inl before ↦ rw before
    | inr after ↦ rw after (omega (arith, count-insert a x ys))
  ]

  pub count-sort : ⦃e : Eq A⦄ (a : A) (xs : List A) → count a (sort le xs) ≡ count a xs
  unfolding sort
  count-sort a [] = refl
  count-sort a (x ∷ xs) = omega (arith, count-insert a x (sort le xs), count-sort a xs)

  module _ (total : (x y : A) → le x y ≡ false → le y x ≡ true) where
    insert-sorted_from :
        (x y : A) (ys : List A)
        → le y x ≡ true
        → sorted_from le y ys ≡ true
        → sorted_from le y (insert le x ys) ≡ true
    unfolding insert sorted_from
    insert-sorted_from x y [] h s = ground arith
    insert-sorted_from x y (z ∷ zs) h s = ground (arith, total x z, insert-sorted_from x z zs)

    pub insert-is_sorted :
        (x : A) (xs : List A) → is_sorted le xs ≡ true → is_sorted le (insert le x xs) ≡ true
    unfolding insert sorted_from
    insert-is_sorted x [] s = refl
    insert-is_sorted x (y ∷ ys) s = ground (arith, total x y, insert-sorted_from x y ys)

    -- Sorting gives a list in order.
    pub sort-is_sorted : (xs : List A) → is_sorted le (sort le xs) ≡ true
    unfolding sort
    sort-is_sorted [] = refl
    sort-is_sorted (x ∷ xs) = insert-is_sorted x (sort le xs) (sort-is_sorted xs)

module _ {ℓ κ} {A : Type ℓ} (le : A → A → Bool) (P : A → Type κ) where
  All-insert : (x : A) (xs : List A) → P x → All P xs → All P (insert le x xs)
  unfolding insert
  All-insert x [] p h = (p, tt)
  All-insert x (y ∷ ys) p h = elim (Bool-cases (le x y)) [
    | inl before ↦ rw before (p, h)
    | inr after ↦ rw after (h.0, All-insert x ys p h.1)
  ]

  pub All-sort : (xs : List A) → All P xs → All P (sort le xs)
  unfolding sort
  All-sort [] h = tt
  All-sort (x ∷ xs) h = All-insert x (sort le xs) h.0 (All-sort xs h.1)
