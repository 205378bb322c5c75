-- ===== src/Transition/Seats.antt =====
-- Writing one seat back: what it does to statements about all seats, and to sums over them.
use mahjong_server_bot_zoo.Prelude.{
  ℕ, zero, suc, ◌<◌, ◌≡◌, ◌≢◌, sym, ◌∙◌, some, List, [], ◌∷◌, arith, length, get_elem?, set,
  length-set, get_elem?-set_self, get_elem?-set_ne, get_elem?-lt, eqb, if◌then◌else◌,
}
use mathlib.Core.Path.{subst, subst₂}
use native.Mathlib.Decide.{ℕ_discrete}
use mahjong_server_bot_zoo.State.{Seat, Phase, GameState}
use mahjong_server_bot_zoo.Rules.{Env}
use mahjong_server_bot_zoo.Transition.Invariant.{EachSeat, scores, Fits, hand_size, IsSound}

-- The written seat satisfies the new statement, and the others satisfied one that implies it.
pub EachSeat-set :
    (P Q : ℕ → Seat → Type 0) (seats : List Seat) (i : ℕ) (q : Seat)
    → EachSeat P seats
    → Q i q
    → ((j : ℕ) (p : Seat) → j ≢ i → P j p → Q j p)
    → EachSeat Q (set seats i q)
EachSeat-set P Q seats i q hs hq imp j p e = elim (ℕ_discrete j i) [
  | yes same ↦ at_self same
  | no other ↦ imp j p other (hs j p (sym (get_elem?-set_ne seats i j q (λ k. other (sym k))) ∙ e))
]
  where
    lt : j < length seats
    lt = omega (arith, get_elem?-lt (set seats i q) j e, length-set seats i q)

    found : j ≡ i → q ≡ p
    found same = cc (get_elem?-set_self seats i q (omega (arith, lt)))

    at_self : j ≡ i → Q j p
    at_self same = rw (← found same, same) hq

pub EachSeat-imp :
    (P Q : ℕ → Seat → Type 0) (seats : List Seat)
    → EachSeat P seats
    → ((i : ℕ) (p : Seat) → P i p → Q i p)
    → EachSeat Q seats
EachSeat-imp P Q seats hs imp i p e = imp i p (hs i p e)

-- Scores stay in sum where the written seat keeps its own.
pub scores-set :
    (seats : List Seat) (i : ℕ) (p q : Seat)
    → get_elem? seats i ≡ some p
    → q.score ≡ p.score
    → scores (set seats i q) ≡ scores seats
scores-set [] i p q e h = cc
scores-set (r ∷ seats) zero p q e h = cc
scores-set (r ∷ seats) (suc i) p q e h = rw (scores-set seats i p q e h)

module _ (env : Env) (s : GameState) (sound : IsSound env s) where
  -- The hand sizes that the phase calls for.
  pub discard_sizes :
      (seat : ℕ)
      → s.phase ≡ Phase.discard
      → s.current_actor ≡ seat
      → EachSeat (λ i q. hand_size q ≡ (if eqb i seat then 14 else 13)) s.seats
  discard_sizes seat phase mine i q e =
      subst₂ (λ ph actor. Fits ph actor i (hand_size q)) phase mine (sound.sizes i q e)

  pub claim_sizes : s.phase ≡ Phase.claim_window → EachSeat (λ i q. hand_size q ≡ 13) s.seats
  claim_sizes phase i q e =
      subst (λ ph. Fits ph s.current_actor i (hand_size q)) phase (sound.sizes i q e)
