-- ===== src/Prelude/Seq.antt =====
-- Python's exceptions as values, its fallible list operations, and postconditions of such calls.
use Prim.Native.Nat.{ℕ, suc, ◌+◌, ◌<◌}
use mathlib.Core.Path.{◌≡◌, refl, subst}
use mathlib.Core.Bool.{Bool, true, false}
use mathlib.Core.List.{List, [], ◌∷◌, ◌++◌}
use mathlib.Core.Logic.{inl, inr}
use mathlib.Core.Option.{Option, none, some}
use native.Mathlib.Omega.{arith}
use mahjong_server_bot_zoo.Prelude.Tests.{Eq, ◌==◌, ==_iff, if◌then◌else◌, Bool-cases}
use mahjong_server_bot_zoo.Prelude.Lists.{length, get_elem?, get_elem?-total}
use mahjong_server_bot_zoo.Prelude.Counting.{one, count}
use mahjong_server_bot_zoo.Prelude.Sub.{Sub, Sub-refl}

pub data Error : Type 0 where
  value_error index_error key_error type_error assertion_error : Error
  illegal_action invalid_state ruleset_error overflow_error out_of_fuel : Error

-- What a call ends with: the value returned, or the exception raised.
pub data Result {ℓ} (V : Type ℓ) : Type ℓ where
  ok : (value : V) → Result V
  err : (raised : Error) → Result V

-- `if not test: raise e`
abbrev pub guard : Bool → Error → Result (Unit {0})
guard test raised = elim test [ true ↦ ok tt | false ↦ err raised ]

infixl 5 ◌>>=◌ ◌>>◌
abbrev pub ◌>>=◌ {ℓ κ} : {V : Type ℓ} {W : Type κ} (call : Result V) → (V → Result W) → Result W
err raised >>= rest = err raised
ok value >>= rest = rest value

abbrev pub ◌>>◌ {κ} : {W : Type κ} (call : Result (Unit {0})) → Result W → Result W
call >> rest = call >>= λ _. rest

abbrev pub or_raise {ℓ} : {A : Type ℓ} → Option A → Error → Result A
or_raise none e = err e
or_raise (some a) e = ok a

-- The call returns, and what it returns satisfies `P`.
abbrev pub Returns {ℓ} : {A : Type ℓ} → Result A → (A → Type 0) → Type 0
Returns (ok a) P = P a
Returns (err e) P = ⊥

module _ {ℓ κ} {A : Type ℓ} {B : Type κ} where
  pub Returns-bind :
      (m : Result A) (f : A → Result B) (Q : A → Type 0) (P : B → Type 0)
      → Returns m Q
      → ((a : A) → Q a → Returns (f a) P)
      → Returns (m >>= f) P
  Returns-bind (ok a) f Q P q h = h a q
  Returns-bind (err e) f Q P q h = absurd q

module _ {ℓ} {A : Type ℓ} where
  pub Returns-imp :
      (m : Result A) (P : A → Type 0) (Q : A → Type 0)
      → ((a : A) → P a → Q a)
      → Returns m P
      → Returns m Q
  Returns-imp (ok a) P Q f p = f a p
  Returns-imp (err e) P Q f p = absurd p

  pub Returns-at : (m : Result A) (P : A → Type 0) {a : A} → Returns m P → m ≡ ok a → P a
  Returns-at (ok b) P {a} h e = let same : b ≡ a = cc in subst P same h
  Returns-at (err e) P h k = absurd h

  pub Returns-ok : (m : Result A) (P : A → Type 0) → Returns m P → (a : A) × (m ≡ ok a) × P a
  Returns-ok (ok a) P p = (a, refl, p)
  Returns-ok (err e) P p = absurd p

-- A call that returns gives what it returns.
pub Returns-self :
    {A : Type 0} (m : Result A) (P : A → Type 0) → Returns m P → Returns m (λ a. P a × (m ≡ ok a))
Returns-self (ok a) P h = (h, refl)
Returns-self (err e) P h = absurd h

-- What the call returns, if it returns, satisfies `P`.
abbrev pub Ensures {ℓ} : {A : Type ℓ} → Result A → (A → Type 0) → Type 0
Ensures (ok a) P = P a
Ensures (err e) P = Unit

module _ {ℓ κ} {A : Type ℓ} {B : Type κ} where
  pub Ensures-bind :
      (m : Result A) (f : A → Result B) (P : B → Type 0)
      → ((a : A) → m ≡ ok a → Ensures (f a) P)
      → Ensures (m >>= f) P
  Ensures-bind (ok a) f P h = h a refl
  Ensures-bind (err e) f P h = tt

pub Ensures-ok {ℓ} :
    {A : Type ℓ} (m : Result A) (P : A → Type 0) {a : A} → Ensures m P → m ≡ ok a → P a
Ensures-ok (ok b) P {a} h e = let same : b ≡ a = cc in subst P same h
Ensures-ok (err e) P h k = absurd (cc)

pub Returns-Ensures {ℓ} :
    {A : Type ℓ} (m : Result A) (P Q : A → Type 0)
    → Returns m P
    → Ensures m Q
    → Returns m (λ a. P a × Q a)
Returns-Ensures (ok a) P Q p q = (p, q)
Returns-Ensures (err e) P Q p q = p

-- `xs[i]`
abbrev pub index {ℓ} : {A : Type ℓ} → List A → ℕ → Result A
index xs i = or_raise (get_elem? xs i) index_error

or_raise-Returns :
    {A : Type 0} (o : Option A) (e : Error) {x : A}
    → o ≡ some x
    → Returns (or_raise o e) (λ y. o ≡ some y)
or_raise-Returns none e h = cc
or_raise-Returns (some y) e h = refl

pub index-Returns :
    {A : Type 0} (xs : List A) (i : ℕ)
    → i < length xs
    → Returns (index xs i) (λ x. get_elem? xs i ≡ some x)
index-Returns xs i h = or_raise-Returns (get_elem? xs i) index_error (get_elem?-total xs i h).1

or_raise-ok : {A : Type 0} (o : Option A) (e : Error) {x : A} → or_raise o e ≡ ok x → o ≡ some x
or_raise-ok none e h = absurd (cc)
or_raise-ok (some y) e h = cc

pub index-ok :
    {A : Type 0} (xs : List A) (i : ℕ) {x : A} → index xs i ≡ ok x → get_elem? xs i ≡ some x
index-ok xs i h = or_raise-ok (get_elem? xs i) index_error h

-- The same where the value is known.
pub or_raise-eq :
    {A : Type 0} (o : Option A) (e : Error) (x : A)
    → o ≡ some x
    → Returns (or_raise o e) (λ y. y ≡ x)
or_raise-eq none e x h = cc
or_raise-eq (some y) e x h = cc

-- `xs[0]`
abbrev pub first {ℓ} : {A : Type ℓ} → List A → Result A
first [] = err index_error
first (x ∷ xs) = ok x

abbrev pub last? {ℓ} : {A : Type ℓ} → List A → Option A
last? [] = none
last? (x ∷ []) = some x
last? (x ∷ y ∷ xs) = last? (y ∷ xs)

-- `xs.pop()`, for its effect.
unfoldable pub pop {ℓ} : {A : Type ℓ} → List A → Result (List A)
pop [] = err index_error
pop (x ∷ []) = ok []
pop (x ∷ y ∷ xs) = pop (y ∷ xs) >>= λ rest. ok (x ∷ rest)

pub last?-append {ℓ} : {A : Type ℓ} (xs : List A) (x : A) → last? (xs ++ x ∷ []) ≡ some x
last?-append [] x = refl
last?-append (y ∷ []) x = refl
last?-append (y ∷ z ∷ xs) x = last?-append (z ∷ xs) x

module _ {ℓ} {A : Type ℓ} ⦃e : Eq A⦄ where
  -- `xs.remove(a)`: the first occurrence goes.
  unfoldable pub remove : A → List A → Result (List A)
  remove a [] = err value_error
  remove a (x ∷ xs) = if x == a then ok xs else (remove a xs >>= λ rest. ok (x ∷ rest))

module _ {A : Type 0} ⦃e : Eq A⦄ where
  -- `ys` is `xs` with one `t` less.
  pub record Removed (t : A) (xs ys : List A) : Type 0 where
    pub counts : (a : A) → count a xs ≡ one a t + count a ys
    pub shorter : length xs ≡ suc (length ys)
    pub sub : Sub ys xs

  Removed-cons : (x t : A) (xs ys : List A) → Removed t xs ys → Removed t (x ∷ xs) (x ∷ ys)
  Removed-cons x t xs ys r = record {
    counts = λ a. omega (arith, r.counts a);
    shorter = omega (arith, r.shorter);
    sub = Sub.keep r.sub;
  }

  pub remove-Returns : (t : A) (xs : List A) → 0 < count t xs → Returns (remove t xs) (Removed t xs)
  unfolding remove
  remove-Returns t [] h = elim h [ ]
  remove-Returns t (x ∷ xs) h = elim (Bool-cases (x == t)) [
    | inl same ↦ rw same (record {
      counts = λ a. rw ((==_iff x t).0 same);
      shorter = refl;
      sub = Sub.skip (Sub-refl xs);
    })
    | inr other ↦ rw other (
        Returns-bind (remove t xs) _ (Removed t xs) (Removed t (x ∷ xs))
          (remove-Returns t xs (ground arith)) (Removed-cons x t xs))
  ]

  pub pop-Returns : (t : A) (xs : List A) → last? xs ≡ some t → Returns (pop xs) (Removed t xs)
  unfolding pop
  pop-Returns t [] h = cc
  pop-Returns t (x ∷ []) h = record { counts = λ a. cc; shorter = refl; sub = Sub.skip Sub.stop }
  pop-Returns t (x ∷ y ∷ xs) h =
      Returns-bind (pop (y ∷ xs)) _ (Removed t (y ∷ xs)) (Removed t (x ∷ y ∷ xs))
        (pop-Returns t (y ∷ xs) h) (Removed-cons x t (y ∷ xs))

-- A chain that returns has returned at its first link.
pub >>=-ok {ℓ κ} :
    {V : Type ℓ} {W : Type κ} (m : Result V) (f : V → Result W) {b : W}
    → (m >>= f) ≡ ok b
    → (a : V) × (m ≡ ok a) × (f a ≡ ok b)
>>=-ok (ok a) f h = (a, refl, h)
>>=-ok (err e) f h = absurd (cc)
