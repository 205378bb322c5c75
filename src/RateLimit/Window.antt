-- ===== src/RateLimit/Window.antt =====
-- mahjong/server/ratelimit.py against its specification: a log of every event that is never pruned.
use mathlib.Core.Path.{subst, subst₂}
use mahjong_server_bot_zoo.Prelude.{
  ℕ, ◌≤◌, ◌<◌, ◌≡◌, ◌≢◌, inl, inr, sym, ap, ◌∙◌, Bool, true, false, some, List, [], ◌∷◌, ◌++◌,
  arith, ltb, if◌then◌else◌, length, Eq, ◌==◌, ==_iff, Bool-cases,
}
use mahjong_server_bot_zoo.RateLimit.{
  Limiter, prune, get, put, would_allow, deque_of, record_event, allow, sweep, with_events,
}
use mahjong_server_bot_zoo.RateLimit.Pruning.{
  live, Ordered, prune-live, live-live, live-append, live-Ordered, Ordered-later, Ordered-append,
}
use mahjong_server_bot_zoo.RateLimit.Keys.{Distinct, get-put_self, get-put_ne, put-Distinct}

-- The calls, each with the readings of the clock.
pub data Call (K : Type 0) : Type 0 where
  would recorded : K → ℕ → Call K
  allowed : K → ℕ → ℕ → Call K
  swept : ℕ → Call K

-- The readings are in order and none is before `latest`.
abbrev pub IsLater : {K : Type 0} → ℕ → Call K → Type 0
IsLater latest (would key now) = latest ≤ now
IsLater latest (recorded key now) = latest ≤ now
IsLater latest (allowed key now later) = (latest ≤ now) × (now ≤ later)
IsLater latest (swept now) = latest ≤ now

abbrev pub ends : {K : Type 0} → Call K → ℕ
ends (would key now) = now
ends (recorded key now) = now
ends (allowed key now later) = later
ends (swept now) = now

-- The specification: under the limit while fewer events than `max` are in the window.
abbrev pub under : ℕ → ℕ → List ℕ → ℕ → Bool
under max window log now = ltb (length (live window now log)) max

-- The deque holds what was live of the log at some time past.
pub record Tracks (window : ℕ) (dq log : List ℕ) (latest : ℕ) : Type 0 where
  pub cut : ℕ
  pub past : cut ≤ latest
  pub kept : dq ≡ live window cut log
  pub ordered : Ordered log latest

newest : (window now : ℕ) → 0 < window → live window now (now ∷ []) ≡ now ∷ []
newest window now lt = ground arith

module _ (window latest now : ℕ) (le : latest ≤ now) (dq log : List ℕ)
    (t : Tracks window dq log latest) where
  pub pruned : prune window now dq ≡ live window now log
  pruned =
      let in_order : Ordered dq latest =
        subst (λ d. Ordered d latest) (sym t.kept)
          (live-Ordered window t.cut log latest t.ordered) in
      prune-live window now dq latest in_order
      ∙ ap (live window now) t.kept
      ∙ live-live window now t.cut log (omega (arith, t.past))

  pub pruned-Tracks : Tracks window (prune window now dq) log now
  pruned-Tracks = record {
    cut = now;
    past = omega arith;
    kept = pruned;
    ordered = Ordered-later log latest now le t.ordered;
  }

  pub later-Tracks : Tracks window dq log now
  later-Tracks = record {
    cut = t.cut;
    past = omega (arith, t.past);
    kept = t.kept;
    ordered = Ordered-later log latest now le t.ordered;
  }

  pub noted-Tracks :
      0 < window → Tracks window (prune window now dq ++ now ∷ []) (log ++ now ∷ []) now
  noted-Tracks lt = record {
    cut = now;
    past = omega arith;
    kept =
        ap (λ d. d ++ now ∷ []) pruned
        ∙ sym (
            live-append window now log (now ∷ [])
            ∙ ap (λ d. live window now log ++ d) (newest window now lt));
    ordered = Ordered-append log latest now le t.ordered;
  }

module _ {K : Type 0} ⦃e : Eq K⦄ where
  -- What the limiter answers; a call without an answer counts as true.
  abbrev pub answer : Limiter K → Call K → Bool × Limiter K
  answer l (would key now) = would_allow l now key
  answer l (recorded key now) = (true, record_event l now key)
  answer l (allowed key now later) = allow l now later key
  answer l (swept now) = (true, sweep l now)

  abbrev pub logged : (K → List ℕ) → K → ℕ → K → List ℕ
  logged logs key now k = if key == k then logs k ++ now ∷ [] else logs k

  abbrev pub specified : ℕ → ℕ → (K → List ℕ) → Call K → Bool × (K → List ℕ)
  specified max window logs (would key now) = (under max window (logs key) now, logs)
  specified max window logs (recorded key now) = (true, logged logs key now)
  specified max window logs (allowed key now later) =
      if under max window (logs key) now then (true, logged logs key later) else (false, logs)
  specified max window logs (swept now) = (true, logs)

  pub record Refines (l : Limiter K) (logs : K → List ℕ) (latest : ℕ) : Type 0 where
    pub distinct : Distinct l.events
    pub tracks : (key : K) → Tracks l.window (deque_of (get key l.events)) (logs key) latest

  written-Tracks :
      (l : Limiter K) (logs logs' : K → List ℕ) (latest now : ℕ) (key k : K) (dq : List ℕ)
      → latest ≤ now
      → Refines l logs latest
      → Tracks l.window dq (logs' key) now
      → ((k : K) → key ≢ k → logs' k ≡ logs k)
      → Tracks l.window (deque_of (get k (put key dq l.events))) (logs' k) now
  written-Tracks l logs logs' latest now key k dq le r t same = elim (Bool-cases (key == k)) [
    | inl here ↦
        let e : key ≡ k = (==_iff key k).0 here in
        subst (λ x. Tracks l.window (deque_of (get x (put key dq l.events))) (logs' x) now) e
          (subst (λ o. Tracks l.window (deque_of o) (logs' key) now)
            (sym (get-put_self key dq l.events)) t)
    | inr there ↦
        let ne : key ≢ k = λ x. let y = (==_iff key k).1 x in cc in
        subst₂ (λ o log. Tracks l.window (deque_of o) log now)
          (sym (get-put_ne key k dq l.events ne)) (sym (same k ne))
          (later-Tracks l.window latest now le _ (logs k) (r.tracks k))
  ]

  -- One deque and its log are replaced.
  pub written-Refines :
      (l : Limiter K) (logs logs' : K → List ℕ) (latest now : ℕ) (key : K) (dq : List ℕ)
      → latest ≤ now
      → Refines l logs latest
      → Tracks l.window dq (logs' key) now
      → ((k : K) → key ≢ k → logs' k ≡ logs k)
      → Refines (with_events l (put key dq l.events)) logs' now
  written-Refines l logs logs' latest now key dq le r t same = record {
    distinct = put-Distinct key dq l.events r.distinct;
    tracks = λ k. written-Tracks l logs logs' latest now key k dq le r t same;
  }

  pub pruned_dq :
      (l : Limiter K) (logs : K → List ℕ) (latest now : ℕ) (key : K) (some_dq : List ℕ)
      → latest ≤ now
      → Refines l logs latest
      → get key l.events ≡ some some_dq
      → prune l.window now some_dq ≡ live l.window now (logs key)
  pruned_dq l logs latest now key dq le r found =
      pruned l.window latest now le dq (logs key)
        (subst (λ o. Tracks l.window (deque_of o) (logs key) latest) found (r.tracks key))
