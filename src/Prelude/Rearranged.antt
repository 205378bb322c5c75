-- ===== src/Prelude/Rearranged.antt =====
-- Two lists with the same entries in some order: every sum over them is the same.
use Prim.Native.Nat.{ℕ}
use mathlib.Core.Path.{◌≡◌, refl, sym, ◌∙◌}
use mathlib.Core.List.{List, [], ◌∷◌}
use native.Mathlib.Omega.{arith}
use mahjong_server_bot_zoo.Prelude.Tests.{Eq}
use mahjong_server_bot_zoo.Prelude.Lists.{length}
use mahjong_server_bot_zoo.Prelude.Counting.{one, count, sum_by}

abbrev pub Rearranged {ℓ} : {A : Type ℓ} → List A → List A → Type ℓ
Rearranged {A = A} xs ys = (f : A → ℕ) → sum_by f xs ≡ sum_by f ys

module _ {ℓ} {A : Type ℓ} where
  pub length-sum_by : (xs : List A) → length xs ≡ sum_by (λ (x : A). 1) xs
  length-sum_by [] = refl
  length-sum_by (x ∷ xs) = omega (arith, length-sum_by xs)

  pub count-sum_by : ⦃e : Eq A⦄ (a : A) (xs : List A) → count a xs ≡ sum_by (one a) xs
  count-sum_by a [] = refl
  count-sum_by a (x ∷ xs) = omega (arith, count-sum_by a xs)

  pub Rearranged-length : (xs ys : List A) → Rearranged xs ys → length xs ≡ length ys
  Rearranged-length xs ys h = length-sum_by xs ∙ h (λ (x : A). 1) ∙ sym (length-sum_by ys)

  pub Rearranged-count :
      ⦃e : Eq A⦄ (xs ys : List A) → Rearranged xs ys → (a : A) → count a xs ≡ count a ys
  Rearranged-count xs ys h a = count-sum_by a xs ∙ h (one a) ∙ sym (count-sum_by a ys)
