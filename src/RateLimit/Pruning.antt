-- ===== src/RateLimit/Pruning.antt =====
-- What pruning leaves of a log of times, in mahjong/server/ratelimit.py.
use mahjong_server_bot_zoo.Prelude.{
  ℕ, ◌+◌, ◌≤◌, ◌<◌, ◌≡◌, inl, inr, refl, sym, true, List, [], ◌∷◌, ◌++◌, arith, ltb, leb, keep, All,
  All-imp, All-append, Bool-cases,
}
use mahjong_server_bot_zoo.Prelude.Every.{All-keep}
use mahjong_server_bot_zoo.RateLimit.Defs.{prune}

-- The times that still count at `now`.
abbrev pub live : ℕ → ℕ → List ℕ → List ℕ
live window now log = keep (λ t. ltb now (t + window)) log

-- No time is before one that stands ahead of it, and none is after `latest`.
abbrev pub Ordered : List ℕ → ℕ → Type 0
Ordered [] latest = Unit
Ordered (t ∷ log) latest = All (λ u. t ≤ u) log × (t ≤ latest) × Ordered log latest

module _ (window now : ℕ) where
  keeps_live : (log : List ℕ) → All (λ t. now < t + window) log → live window now log ≡ log
  keeps_live [] h = refl
  keeps_live (t ∷ log) h = ground (arith, keeps_live log h.1)

  -- Pruning from the front leaves just what is live.
  pub prune-live :
      (log : List ℕ) (latest : ℕ) → Ordered log latest → prune window now log ≡ live window now log
  unfolding prune
  prune-live [] latest h = refl
  prune-live (t ∷ log) latest h = elim (Bool-cases (leb (t + window) now)) [
    | inl old ↦ let k = prune-live log latest h.2 in ground arith
    | inr young ↦
        let counts = keeps_live (t ∷ log) (
          ground arith,
          All-imp (λ u. t ≤ u) (λ u. now < u + window) log (λ u le. ground arith) h.0,
        ) in
        rw young (sym counts)
  ]

  -- What was dead before is dead now.
  pub live-live :
      (then_ : ℕ) (log : List ℕ)
      → then_ ≤ now
      → live window now (live window then_ log) ≡ live window now log
  live-live then_ [] le = refl
  live-live then_ (t ∷ log) le = ground (arith, live-live then_ log le)

  pub live-append :
      (log more : List ℕ)
      → live window now (log ++ more) ≡ live window now log ++ live window now more
  live-append [] more = refl
  live-append (t ∷ log) more = ground (arith, live-append log more)

-- What is live of a log in order is in order, and a log in order is so later.
All-live :
    (P : ℕ → Type 0) (window now : ℕ) (log : List ℕ) → All P log → All P (live window now log)
All-live P window now log h =
    All-imp (λ t. P t × (ltb now (t + window) ≡ true)) P (live window now log) (λ t k. k.0)
      (All-keep P (λ t. ltb now (t + window)) log h)

pub live-Ordered :
    (window now : ℕ) (log : List ℕ) (latest : ℕ)
    → Ordered log latest
    → Ordered (live window now log) latest
live-Ordered window now [] latest h = h
live-Ordered window now (t ∷ log) latest h = elim (Bool-cases (ltb now (t + window))) [
  | inl counts ↦
      rw (counts, keep, Ordered)
        (All-live (λ u. t ≤ u) window now log h.0, h.1, live-Ordered window now log latest h.2)
  | inr dead ↦ rw (dead, keep, Ordered) (live-Ordered window now log latest h.2)
]

pub Ordered-later :
    (log : List ℕ) (latest now : ℕ) → latest ≤ now → Ordered log latest → Ordered log now
Ordered-later [] latest now le h = h
Ordered-later (t ∷ log) latest now le h =
    (h.0, omega (arith, h.1), Ordered-later log latest now le h.2)

Ordered-All : (log : List ℕ) (latest : ℕ) → Ordered log latest → All (λ t. t ≤ latest) log
Ordered-All [] latest h = h
Ordered-All (t ∷ log) latest h = (h.1, Ordered-All log latest h.2)

pub Ordered-append :
    (log : List ℕ) (latest now : ℕ)
    → latest ≤ now
    → Ordered log latest
    → Ordered (log ++ now ∷ []) now
Ordered-append [] latest now le h = (tt, omega arith, tt)
Ordered-append (t ∷ log) latest now le h = (
  All-append (λ u. t ≤ u) log (now ∷ []) h.0 (omega (arith, h.1, le), tt),
  omega (arith, h.1),
  Ordered-append log latest now le h.2,
)
