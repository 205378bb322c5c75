-- ===== src/RateLimit/Keys.antt =====
-- The dict of mahjong/server/ratelimit.py: reading a key after a write or a sweep.
use mathlib.Core.Path.{subst}
use mahjong_server_bot_zoo.Prelude.{
  ℕ, ◌≡◌, ◌≢◌, inl, inr, refl, sym, ap, ◌∙◌, true, false, none, some, List, [], ◌∷◌, arith, Eq,
  ◌==◌, ==_iff, Bool-cases,
}
use mahjong_server_bot_zoo.RateLimit.Defs.{prune, get, put, deque_of, keep_live, sweep_events}

module _ {K : Type 0} ⦃e : Eq K⦄ where
  -- No key stands twice.
  abbrev pub Distinct : List (K × List ℕ) → Type 0
  Distinct [] = Unit
  Distinct ((k, dq) ∷ m) = (get k m ≡ none) × Distinct m

  pub get-put_self :
      (key : K) (dq : List ℕ) (m : List (K × List ℕ)) → get key (put key dq m) ≡ some dq
  unfolding get put
  get-put_self key dq [] = ground (arith, ==_iff key key)
  get-put_self key dq ((k, old) ∷ m) = ground (arith, get-put_self key dq m)

  pub get-put_ne :
      (key other : K) (dq : List ℕ) (m : List (K × List ℕ))
      → key ≢ other
      → get other (put key dq m) ≡ get other m
  unfolding get put
  get-put_ne key other dq [] ne = ground (arith, ==_iff key other)
  get-put_ne key other dq ((k, old) ∷ m) ne =
      ground (arith, get-put_ne key other dq m ne, ==_iff key other, ==_iff k key, ==_iff k other)

  pub put-Distinct :
      (key : K) (dq : List ℕ) (m : List (K × List ℕ)) → Distinct m → Distinct (put key dq m)
  unfolding put get
  put-Distinct key dq [] h = (refl, tt)
  put-Distinct key dq ((k, old) ∷ m) h = elim (Bool-cases (k == key)) [
    | inl same ↦ rw same h
    | inr other ↦ rw other (
      get-put_ne key k dq m (λ same. let t = (==_iff k key).1 (sym same) in cc) ∙ h.0,
      put-Distinct key dq m h.1,
    )
  ]

  get-keep_ne :
      (live : List ℕ) (k key : K) (m : List (K × List ℕ))
      → (k == key) ≡ false
      → get key (keep_live live k m) ≡ get key m
  unfolding get
  get-keep_ne [] k key m ne = refl
  get-keep_ne (t ∷ live) k key m ne = rw ne refl

  get-keep_self :
      (live : List ℕ) (k key : K) (m : List (K × List ℕ))
      → (k == key) ≡ true
      → get key m ≡ none
      → deque_of (get key (keep_live live k m)) ≡ live
  unfolding get
  get-keep_self [] k key m same h = rw h refl
  get-keep_self (t ∷ live) k key m same h = rw same refl

  keep-Distinct :
      (live : List ℕ) (k : K) (m : List (K × List ℕ))
      → get k m ≡ none
      → Distinct m
      → Distinct (keep_live live k m)
  keep-Distinct [] k m fresh h = h
  keep-Distinct (t ∷ live) k m fresh h = (fresh, h)

  -- A key that is absent stands nowhere.
  absent :
      (k key : K) (dq : List ℕ) (m : List (K × List ℕ))
      → get key ((k, dq) ∷ m) ≡ none
      → ((k == key) ≡ false) × (get key m ≡ none)
  unfolding get
  absent k key dq m h = ground arith

  module _ (window now : ℕ) where
    get-sweep_none :
        (key : K) (m : List (K × List ℕ))
        → get key m ≡ none
        → get key (sweep_events window now m) ≡ none
    unfolding get sweep_events
    get-sweep_none key [] h = h
    get-sweep_none key ((k, dq) ∷ m) h =
        let (ne, later) = absent k key dq m h in
        get-keep_ne (prune window now dq) k key (sweep_events window now m) ne
        ∙ get-sweep_none key m later

    -- A sweep prunes the deque of every key.
    pub deque-sweep :
        (key : K) (m : List (K × List ℕ))
        → Distinct m
        → deque_of (get key (sweep_events window now m)) ≡ prune window now (deque_of (get key m))
    unfolding get sweep_events prune
    deque-sweep key [] h = refl
    deque-sweep key ((k, dq) ∷ m) h = elim (Bool-cases (k == key)) [
      | inl same ↦
          let gone =
            get-sweep_none key m (subst (λ x. get x m ≡ none) ((==_iff k key).0 same) h.0) in
          rw same (get-keep_self (prune window now dq) k key (sweep_events window now m) same gone)
      | inr other ↦ rw other (
          ap deque_of (get-keep_ne (prune window now dq) k key (sweep_events window now m) other)
          ∙ deque-sweep key m h.1)
    ]

    pub sweep-Distinct : (m : List (K × List ℕ)) → Distinct m → Distinct (sweep_events window now m)
    unfolding sweep_events get
    sweep-Distinct [] h = h
    sweep-Distinct ((k, dq) ∷ m) h =
        keep-Distinct (prune window now dq) k (sweep_events window now m) (get-sweep_none k m h.0)
          (sweep-Distinct m h.1)
