-- ===== src/RateLimit/Run.antt =====
-- A sequence of calls of mahjong/server/ratelimit.py on one limiter.
use mathlib.Core.Path.{subst₂, ap₂}
use mahjong_server_bot_zoo.Prelude.{
  ℕ, ◌≤◌, ◌<◌, ◌≡◌, inl, inr, refl, ◌∙◌, Bool, List, [], ◌∷◌, arith, Eq, Bool-cases,
}
use mahjong_server_bot_zoo.RateLimit.{Limiter, get, would_allow, record_event, allow}
use mahjong_server_bot_zoo.RateLimit.Window.{
  Call, would, recorded, allowed, swept, IsLater, ends, under, answer, specified, Refines,
}
use mahjong_server_bot_zoo.RateLimit.Agreement.{
  Agrees, would-Agrees, later-Refines, record-Refines, sweep-Refines,
}

-- Each call reads the clock after the one before it.
abbrev pub AreLater : {K : Type 0} → ℕ → List (Call K) → Type 0
AreLater latest [] = Unit
AreLater latest (call ∷ calls) = IsLater latest call × AreLater (ends call) calls

module _ {K : Type 0} ⦃e : Eq K⦄ where
  abbrev pub answers_of : Limiter K → List (Call K) → List Bool
  answers_of l [] = []
  answers_of l (call ∷ calls) = (answer l call).0 ∷ answers_of (answer l call).1 calls

  abbrev pub specified_answers : ℕ → ℕ → (K → List ℕ) → List (Call K) → List Bool
  specified_answers max window logs [] = []
  specified_answers max window logs (call ∷ calls) =
      (specified max window logs call).0
      ∷ specified_answers max window (specified max window logs call).1 calls

  -- `SlidingWindowLimiter.__init__`
  abbrev pub new_limiter : ℕ → ℕ → Limiter K
  new_limiter max window = record { max_events = max; window = window; events = [] }

  module _ (l : Limiter K) (logs : K → List ℕ) (latest : ℕ) (room : 0 < l.max_events)
      (spans : 0 < l.window) (r : Refines l logs latest) where
    pub allow-Agrees :
        (now later : ℕ) (key : K)
        → latest ≤ now
        → now ≤ later
        → Agrees l logs later
            (allow l now later key)
            (specified l.max_events l.window logs (allowed key now later))
    unfolding allow record_event
    allow-Agrees now later key le le' =
        let w = would-Agrees l logs latest room spans r now key le in
        let l' = (would_allow l now key).1 in
        let room' : 0 < l'.max_events = omega (arith, w.same_max, room) in
        let spans' : 0 < l'.window = omega (arith, w.same_window, spans) in
        elim (Bool-cases (under l.max_events l.window (logs key) now)) [
          | inl is_under ↦
              rw (w.answers, is_under)
                (record {
                  answers = refl;
                  refines = record-Refines l' logs now room' spans' w.refines later key le';
                  same_max = w.same_max;
                  same_window = w.same_window;
                })
          | inr is_over ↦
              rw (w.answers, is_over)
                (record {
                  answers = refl;
                  refines = later-Refines l' logs now room' spans' w.refines later le';
                  same_max = w.same_max;
                  same_window = w.same_window;
                })
        ]

    answer-Agrees :
        (call : Call K)
        → IsLater latest call
        → Agrees l logs (ends call) (answer l call) (specified l.max_events l.window logs call)
    unfolding record_event
    answer-Agrees (would key now) le = would-Agrees l logs latest room spans r now key le
    answer-Agrees (recorded key now) le = record {
      answers = refl;
      refines = record-Refines l logs latest room spans r now key le;
      same_max = refl;
      same_window = refl;
    }
    answer-Agrees (allowed key now later) le = allow-Agrees now later key le.0 le.1
    answer-Agrees (swept now) le = record {
      answers = refl;
      refines = sweep-Refines l logs latest room spans r now le;
      same_max = refl;
      same_window = refl;
    }

  run_answers :
      (max window : ℕ) (calls : List (Call K)) (l : Limiter K) (logs : K → List ℕ) (latest : ℕ)
      → 0 < max
      → 0 < window
      → l.max_events ≡ max
      → l.window ≡ window
      → Refines l logs latest
      → AreLater latest calls
      → answers_of l calls ≡ specified_answers max window logs calls
  run_answers max window [] l logs latest room spans same same' r h = refl
  run_answers max window (call ∷ calls) l logs latest room spans same same' r h =
      let a' =
        answer-Agrees l logs latest (omega (arith, same, room)) (omega (arith, same', spans)) r call
          h.0 in
      let a =
        subst₂ (λ m w. Agrees l logs (ends call) (answer l call) (specified m w logs call)) same
          same' a' in
      ap₂ (λ b bs. b ∷ bs) a.answers
        (run_answers max window calls (answer l call).1 (specified max window logs call).1
          (ends call) room spans (a.same_max ∙ same) (a.same_window ∙ same') a.refines h.1)

  pub new-Refines : (max window : ℕ) → Refines (new_limiter max window) (λ key. []) 0
  unfolding get
  new-Refines max window = record {
    distinct = tt;
    tracks = λ key. record { cut = 0; past = omega arith; kept = refl; ordered = tt };
  }

  -- From a new limiter with a positive limit and a positive window, every sequence of calls whose clock
  -- never goes back is answered as by a log that keeps every event for good: a key is allowed just
  -- while fewer than the limit of its events are younger than the window.
  pub limiter-answers_specified :
      (max window : ℕ) (calls : List (Call K))
      → 0 < max
      → 0 < window
      → AreLater 0 calls
      → answers_of (new_limiter max window) calls ≡ specified_answers max window (λ key. []) calls
  limiter-answers_specified max window calls room spans h =
      run_answers max window calls (new_limiter max window) (λ key. []) 0 room spans refl refl
        (new-Refines max window) h
