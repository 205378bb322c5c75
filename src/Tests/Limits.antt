-- ===== src/Tests/Limits.antt =====
-- A login form that allows two failures in ten ticks.
use mahjong_server_bot_zoo.Prelude.{
  ℕ, ◌≡◌, ◌≤◌, refl, true, false, List, [], ◌∷◌, arith, length, keep, ltb, ◌+◌, nat_eq,
}
use mahjong_server_bot_zoo.RateLimit.{would_allow, allow, sweep_events}
use mahjong_server_bot_zoo.RateLimit.Window.{Call, would, recorded, allowed, swept}
use mahjong_server_bot_zoo.RateLimit.Run.{
  answers_of, specified_answers, new_limiter, limiter-answers_specified,
}
use mahjong_server_bot_zoo.RateLimit.Bounds.{Attempt, grants, grants-fit}

abbrev calls : List (Call ℕ)
calls =
    would 7 1
    ∷ recorded 7 2
    ∷ allowed 7 3 3
    ∷ would 7 4
    ∷ swept 12
    ∷ allowed 7 12 12
    ∷ allowed 7 12 12
    ∷ allowed 8 12 12
    ∷ []

calls_answered :
    answers_of (new_limiter 2 10) calls
    ≡ true ∷ true ∷ true ∷ false ∷ true ∷ true ∷ false ∷ true ∷ []
unfolding would_allow allow sweep_events
calls_answered = refl

limiter-answers_specified_example :
    answers_of (new_limiter 2 10) calls ≡ specified_answers 2 10 (λ key. []) calls
limiter-answers_specified_example =
    limiter-answers_specified 2 10 calls (omega arith) (omega arith) (
      omega arith,
      (
        omega arith,
        (
          (omega arith, omega arith),
          (
            omega arith,
            (
              omega arith,
              (
                (omega arith, omega arith),
                ((omega arith, omega arith), ((omega arith, omega arith), tt)),
              ),
            ),
          ),
        ),
      ),
    )

abbrev attempts : List (Attempt ℕ)
attempts = (7, 1, 1) ∷ (7, 2, 2) ∷ (7, 5, 5) ∷ (8, 6, 6) ∷ (7, 11, 11) ∷ []

attempts_granted : grants (new_limiter 2 10) 7 attempts ≡ 1 ∷ 2 ∷ 11 ∷ []
unfolding allow
attempts_granted = refl

grants-fit_example : length (keep (λ t. ltb 11 (t + 10)) (grants (new_limiter 2 10) 7 attempts)) ≤ 2
grants-fit_example = grants-fit 2 10 attempts 7 (omega arith) (omega arith) (
  omega arith,
  omega arith,
  (
    omega arith,
    omega arith,
    (omega arith, omega arith, (omega arith, omega arith, (omega arith, omega arith, tt))),
  ),
)
