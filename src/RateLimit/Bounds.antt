-- ===== src/RateLimit/Bounds.antt =====
-- How many attempts `allow` of mahjong/server/ratelimit.py grants within one window.
use mathlib.Core.List.{append-nil, append_assoc}
use mathlib.Core.Path.{subst, subst₂}
use mahjong_server_bot_zoo.Prelude.{
  ℕ, ◌≤◌, ◌<◌, ◌≡◌, inl, inr, refl, sym, ap, ◌∙◌, Bool, true, false, List, [], ◌∷◌, ◌++◌, arith,
  if◌then◌else◌, length, length-append, Eq, ◌==◌, ==_iff, Bool-cases,
}
use mahjong_server_bot_zoo.RateLimit.{Limiter, allow}
use mahjong_server_bot_zoo.RateLimit.Pruning.{live, live-append}
use mahjong_server_bot_zoo.RateLimit.Window.{allowed, under, specified, logged, Refines}
use mahjong_server_bot_zoo.RateLimit.Agreement.{Agrees}
use mahjong_server_bot_zoo.RateLimit.Run.{new_limiter, allow-Agrees, new-Refines}

-- An attempt: the key and the two readings of the clock.
abbrev pub Attempt : Type 0 → Type 0
Attempt K = K × ℕ × ℕ

abbrev pub AreInOrder : {K : Type 0} → ℕ → List (Attempt K) → Type 0
AreInOrder latest [] = Unit
AreInOrder latest ((key, now, later) ∷ attempts) =
    (latest ≤ now) × (now ≤ later) × AreInOrder later attempts

abbrev pub last_time : {K : Type 0} → ℕ → List (Attempt K) → ℕ
last_time latest [] = latest
last_time latest ((key, now, later) ∷ attempts) = last_time later attempts

live-length :
    (window then_ now : ℕ) (log : List ℕ)
    → then_ ≤ now
    → length (live window now log) ≤ length (live window then_ log)
live-length window then_ now [] le = omega arith
live-length window then_ now (t ∷ log) le = ground (arith, live-length window then_ now log le)

-- One more event when fewer than `max` are live.
live-noted :
    (max window now later : ℕ) (log : List ℕ)
    → now ≤ later
    → under max window log now ≡ true
    → length (live window later (log ++ later ∷ [])) ≤ max
live-noted max window now later log le is_under =
    let one : length (live window later (later ∷ [])) ≤ 1 = ground arith in
    let fewer : length (live window now log) < max = ground arith in
    omega (
      arith,
      ap length (live-append window later log (later ∷ [])),
      length-append (live window later log) (live window later (later ∷ [])),
      live-length window now later log le,
      one,
      fewer,
    )

module _ {K : Type 0} ⦃e : Eq K⦄ where
  -- The times at which attempts of `key` were granted.
  abbrev pub grants : Limiter K → K → List (Attempt K) → List ℕ
  grants l key [] = []
  grants l key ((k, now, later) ∷ attempts) =
      let (granted, l') = allow l now later k in
      let rest = grants l' key attempts in
      if granted then (if k == key then later ∷ rest else rest) else rest

  noted_fits :
      (max window now later : ℕ) (logs : K → List ℕ) (key k : K)
      → now ≤ later
      → under max window (logs k) now ≡ true
      → length (live window now (logs key)) ≤ max
      → length (live window later (logged logs k later key)) ≤ max
  noted_fits max window now later logs key k le is_under fits = elim (Bool-cases (k == key)) [
    | inl same ↦
        let e : k ≡ key = (==_iff k key).0 same in
        let here : logged logs k later key ≡ logs k ++ later ∷ [] =
          rw same (ap (λ x. logs x ++ later ∷ []) (sym e)) in
        rw here (live-noted max window now later (logs k) le is_under)
    | inr other ↦ rw other (omega (arith, live-length window now later (logs key) le, fits))
  ]

  module _ (max window now later : ℕ) (logs : K → List ℕ) (key k : K) where
    step_fits :
        now ≤ later
        → length (live window now (logs key)) ≤ max
        → length (live window later ((specified max window logs (allowed k now later)).1 key)) ≤ max
    step_fits le fits = elim (Bool-cases (under max window (logs k) now)) [
      | inl is_under ↦ rw is_under (noted_fits max window now later logs key k le is_under fits)
      | inr is_over ↦ rw is_over (omega (arith, live-length window now later (logs key) le, fits))
    ]

    appended :
        (rest : List ℕ) (same : Bool)
        → (if same then logs key ++ later ∷ [] else logs key) ++ rest
          ≡ logs key ++ (if same then later ∷ rest else rest)
    appended rest true = append_assoc (logs key) (later ∷ []) rest
    appended rest false = refl

    step_granted :
        (granted : Bool) (rest : List ℕ)
        → granted ≡ (specified max window logs (allowed k now later)).0
        → (specified max window logs (allowed k now later)).1 key ++ rest
          ≡ logs key ++ (if granted then (if k == key then later ∷ rest else rest) else rest)
    step_granted granted rest same = elim (Bool-cases (under max window (logs k) now)) [
      | inl is_under ↦
          let yes_ : granted ≡ true = rw (same, is_under) refl in
          rw (is_under, yes_) (appended rest (k == key))
      | inr is_over ↦ let no_ : granted ≡ false = rw (same, is_over) refl in rw (is_over, no_) refl
    ]

  granted_fits :
      (max window : ℕ) (attempts : List (Attempt K)) (l : Limiter K) (logs : K → List ℕ)
      (latest : ℕ) (key : K)
      → 0 < max
      → 0 < window
      → l.max_events ≡ max
      → l.window ≡ window
      → Refines l logs latest
      → AreInOrder latest attempts
      → length (live window latest (logs key)) ≤ max
      → length (live window (last_time latest attempts) (logs key ++ grants l key attempts)) ≤ max
  granted_fits max window [] l logs latest key room spans same same' r h fits =
      rw (append-nil (logs key)) fits
  granted_fits max window ((k, now, later) ∷ attempts) l logs latest key room spans same same' r h
        fits =
      let a' =
        allow-Agrees l logs latest (omega (arith, same, room)) (omega (arith, same', spans)) r now
          later k h.0 h.1 in
      let a =
        subst₂
          (λ m w.
            Agrees l logs later (allow l now later k) (specified m w logs (allowed k now later)))
          same same' a' in
      let l' = (allow l now later k).1 in
      let logs' = (specified max window logs (allowed k now later)).1 in
      subst (λ log. length (live window (last_time later attempts) log) ≤ max)
        (step_granted max window now later logs key k (allow l now later k).0
          (grants l' key attempts) a.answers)
        (granted_fits max window attempts l' logs' later key room spans (a.same_max ∙ same)
          (a.same_window ∙ same') a.refines h.2
          (step_fits max window now later logs key k h.1
            (omega (arith, live-length window latest now (logs key) h.0, fits))))

  -- From a new limiter with a positive limit and a positive window, in every sequence of `allow` calls
  -- whose clock never goes back, at most the limit of a key's granted attempts lie in the window that
  -- ends with the last reading.
  pub grants-fit :
      (max window : ℕ) (attempts : List (Attempt K)) (key : K)
      → 0 < max
      → 0 < window
      → AreInOrder 0 attempts
      → length (live window (last_time 0 attempts) (grants (new_limiter max window) key attempts))
        ≤ max
  grants-fit max window attempts key room spans h =
      granted_fits max window attempts (new_limiter max window) (λ k. []) 0 key room spans refl refl
        (new-Refines max window) h (omega arith)
