-- ===== src/Prelude/Sub.antt =====
-- What is left of a list after removals: a subsequence, which keeps order and every property.
use mathlib.Core.Path.{◌≡◌, refl}
use mathlib.Core.Bool.{Bool, true}
use mathlib.Core.List.{List, [], ◌∷◌}
use native.Mathlib.Omega.{arith}
use mahjong_server_bot_zoo.Prelude.Lists.{All}
use mahjong_server_bot_zoo.Prelude.Sorting.{sorted_from, is_sorted}

pub data Sub {ℓ} {A : Type ℓ} : List A → List A → Type ℓ where
  stop : Sub [] []
  skip : {x : A} {ys xs : List A} → Sub ys xs → Sub ys (x ∷ xs)
  keep : {x : A} {ys xs : List A} → Sub ys xs → Sub (x ∷ ys) (x ∷ xs)

pub Sub-refl {ℓ} : {A : Type ℓ} (xs : List A) → Sub xs xs
Sub-refl [] = stop
Sub-refl (x ∷ xs) = keep (Sub-refl xs)

pub Sub-All {ℓ κ} : {A : Type ℓ} (P : A → Type κ) {ys xs : List A} → Sub ys xs → All P xs → All P ys
Sub-All P stop h = tt
Sub-All P (skip s) h = Sub-All P s h.1
Sub-All P (keep s) h = (h.0, Sub-All P s h.1)

module _ {ℓ} {A : Type ℓ} (le : A → A → Bool)
    (trans : (x y z : A) → le x y ≡ true → le y z ≡ true → le x z ≡ true) where
  lower :
      (x y : A) (xs : List A)
      → le x y ≡ true
      → sorted_from le y xs ≡ true
      → sorted_from le x xs ≡ true
  unfolding sorted_from
  lower x y [] h s = refl
  lower x y (z ∷ xs) h s = ground (arith, trans x y z)

  Sub-sorted_from :
      (x : A) {ys xs : List A} → Sub ys xs → sorted_from le x xs ≡ true → sorted_from le x ys ≡ true
  unfolding sorted_from
  Sub-sorted_from x stop s = s
  Sub-sorted_from x (skip {x = z} {xs = xs} h) s =
      Sub-sorted_from x h (lower x z xs (ground arith) (ground arith))
  Sub-sorted_from x (keep {x = z} {ys = ys} h) s = ground (arith, Sub-sorted_from z h)

  pub Sub-is_sorted : {ys xs : List A} → Sub ys xs → is_sorted le xs ≡ true → is_sorted le ys ≡ true
  unfolding sorted_from
  Sub-is_sorted stop s = s
  Sub-is_sorted (skip {xs = []} stop) s = refl
  Sub-is_sorted (skip {xs = z ∷ xs} h) s = Sub-is_sorted h (ground arith)
  Sub-is_sorted (keep {x = z} h) s = Sub-sorted_from z h s

pub Sub-trans {ℓ} : {A : Type ℓ} {zs ys xs : List A} → Sub zs ys → Sub ys xs → Sub zs xs
Sub-trans h stop = h
Sub-trans h (skip k) = skip (Sub-trans h k)
Sub-trans (skip h) (keep k) = skip (Sub-trans h k)
Sub-trans (keep h) (keep k) = keep (Sub-trans h k)
