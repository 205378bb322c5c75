-- ===== src/Prelude/Every.antt =====
-- Statements about every entry of a list, through the list functions.
use Prim.Native.Nat.{◌≤◌, ◌<◌}
use mathlib.Core.Path.{◌≡◌, refl}
use mathlib.Core.Logic.{◌⊎◌, inl, inr}
use mathlib.Core.Bool.{Bool, true, false}
use mathlib.Core.List.{List, [], ◌∷◌, map}
use native.Mathlib.Omega.{arith}
use mahjong_server_bot_zoo.Prelude.Tests.{Eq, Bool-cases}
use mahjong_server_bot_zoo.Prelude.Lists.{keep, all, All, All-imp}
use mahjong_server_bot_zoo.Prelude.Counting.{count}

module _ {ℓ κ} {A : Type ℓ} (P : A → Type κ) where
  pub All-keep : (f : A → Bool) (xs : List A) → All P xs → All (λ x. P x × (f x ≡ true)) (keep f xs)
  All-keep f [] h = tt
  All-keep f (x ∷ xs) h = elim (Bool-cases (f x)) [
    | inl kept ↦ rw (kept, All, keep) ((h.0, kept), All-keep f xs h.1)
    | inr dropped ↦ rw (dropped, All, keep) (All-keep f xs h.1)
  ]

  unkeep :
      (b : Bool) (x : A) (rest : List A)
      → All P (elim b [ true ↦ x ∷ rest | false ↦ rest ])
      → ((b ≡ false) ⊎ P x) × All P rest
  unkeep true x rest h = (inr h.0, h.1)
  unkeep false x rest h = (inl refl, h)

  -- An entry is filtered out or satisfies what the kept ones do.
  pub keep-All :
      (f : A → Bool) (xs : List A) → All P (keep f xs) → All (λ x. (f x ≡ false) ⊎ P x) xs
  keep-All f [] h = tt
  keep-All f (x ∷ xs) h =
      let (now, later) = unkeep (f x) x (keep f xs) h in (now, keep-All f xs later)

  pub All-and {μ} : (Q : A → Type μ) (xs : List A) → All P xs → All Q xs → All (λ x. P x × Q x) xs
  All-and Q [] h k = tt
  All-and Q (x ∷ xs) h k = ((h.0, k.0), All-and Q xs h.1 k.1)

  pub All-map {μ} :
      {B : Type μ} (g : B → A) (xs : List B) → All (λ b. P (g b)) xs → All P (map g xs)
  All-map g [] h = tt
  All-map g (x ∷ xs) h = (h.0, All-map g xs h.1)

module _ {ℓ} {A : Type ℓ} where
  pub all-All : (f : A → Bool) (xs : List A) → all f xs ≡ true → All (λ x. f x ≡ true) xs
  all-All f [] h = tt
  all-All f (x ∷ xs) h = (ground arith, all-All f xs (ground arith))

module _ {ℓ} {A : Type ℓ} ⦃e : Eq A⦄ where
  -- Every entry occurs.
  pub All-count : (xs : List A) → All (λ x. 0 < count x xs) xs
  All-count [] = tt
  All-count (x ∷ xs) = (
    ground (arith, e.beq_iff x x),
    All-imp (λ y. 0 < count y xs) (λ y. 0 < count y (x ∷ xs)) xs (λ y h. omega arith)
        (All-count xs),
  )

  pub count-keep-le : (f : A → Bool) (a : A) (xs : List A) → count a (keep f xs) ≤ count a xs
  count-keep-le f a [] = omega arith
  count-keep-le f a (x ∷ xs) = ground (arith, count-keep-le f a xs)
