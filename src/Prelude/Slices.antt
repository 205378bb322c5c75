-- ===== src/Prelude/Slices.antt =====
-- `xs[:n]` and `xs[n:]`, under the library's names.
use Prim.Native.Nat.{ℕ, zero, suc, ◌-◌, ◌≤◌, ◌<◌, min}
use mathlib.Core.Path.{◌≡◌, refl, ap}
use mathlib.Core.Logic.{◌⊎◌, inl, inr}
use mathlib.Core.Option.{some}
use mathlib.Core.List.{List, [], ◌∷◌, ◌++◌}
use native.Mathlib.Omega.{arith}
use mahjong_server_bot_zoo.Prelude.Lists.{length, get_elem?}

module _ {ℓ} {A : Type ℓ} where
  abbrev pub take : ℕ → List A → List A
  take zero xs = []
  take (suc n) [] = []
  take (suc n) (x ∷ xs) = x ∷ take n xs

  abbrev pub drop : ℕ → List A → List A
  drop zero xs = xs
  drop (suc n) [] = []
  drop (suc n) (x ∷ xs) = drop n xs

module _ {ℓ} {A : Type ℓ} where
  pub length-take : (n : ℕ) (xs : List A) → length (take n xs) ≡ min n (length xs)
  length-take zero xs = omega arith
  length-take (suc n) [] = omega arith
  length-take (suc n) (x ∷ xs) = omega (arith, length-take n xs)

  pub length-drop : (n : ℕ) (xs : List A) → length (drop n xs) ≡ length xs - n
  length-drop zero xs = omega arith
  length-drop (suc n) [] = omega arith
  length-drop (suc n) (x ∷ xs) = omega (arith, length-drop n xs)

-- An entry of a list with one more at its end is one of the list, or the last.
pub entry_of-append :
    {A : Type 0} (xs : List A) (x c : A) (k : ℕ)
    → get_elem? (xs ++ x ∷ []) k ≡ some c
    → ((get_elem? xs k ≡ some c) × (k < length xs)) ⊎ ((x ≡ c) × (k ≡ length xs))
entry_of-append [] x c zero e = inr (cc, refl)
entry_of-append [] x c (suc k) e = absurd (cc)
entry_of-append (y ∷ xs) x c zero e = inl (e, omega arith)
entry_of-append (y ∷ xs) x c (suc k) e = elim (entry_of-append xs x c k e) [
  | inl (f, lt) ↦ inl (f, omega (arith, lt))
  | inr (f, last) ↦ inr (f, ap suc last)
]

pub take-append :
    {A : Type 0} (n : ℕ) (xs ys : List A) → n ≤ length xs → take n (xs ++ ys) ≡ take n xs
take-append zero xs ys h = refl
take-append (suc n) [] ys h = absurd (omega arith)
take-append (suc n) (x ∷ xs) ys h = ap (λ l. x ∷ l) (take-append n xs ys (omega arith))

pub take-length : {A : Type 0} (xs : List A) → take (length xs) xs ≡ xs
take-length [] = refl
take-length (x ∷ xs) = ap (λ l. x ∷ l) (take-length xs)
