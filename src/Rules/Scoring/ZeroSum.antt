-- ===== src/Rules/Scoring/ZeroSum.antt =====
-- The balance of the payments in mahjong/engine/scoring.py.
use Prim.Native.String.{String}
use mahjong_server_bot_zoo.Prelude.{
  ℕ, ◌+◌, ◌*◌, ◌<◌, ◌≡◌, ◌≢◌, ◌⊎◌, inl, inr, refl, Option, none, some, List, [], ◌∷◌, arith, length,
  leb, Bool-cases,
}
use mahjong_server_bot_zoo.Prelude.Int.{ℤ, pos, ◌+ℤ◌, ◌≤ℤ◌, int_laws}
use mahjong_server_bot_zoo.Prelude.Seq.{ok, Returns, Returns-bind, last?}
use mahjong_server_bot_zoo.State.{WinType, self_draw, discard, robbed_kong, last_tile}
use mahjong_server_bot_zoo.Rules.Inputs.{Conversion}
use mahjong_server_bot_zoo.Rules.Scoring.{
  settle, scan_tiers, lookup_x, official_delta, house_table_delta, score_delta, official_conversion,
}

abbrev pub total : List ℤ → ℤ
total [] = pos 0
total (d ∷ ds) = d +ℤ total ds

-- From seat `i` on, nobody but the winner gains.
abbrev pub OthersLose : ℕ → ℕ → List ℤ → Type 0
OthersLose winner i [] = Unit
OthersLose winner i (d ∷ ds) = (i ≢ winner → d ≤ℤ pos 0) × OthersLose winner (i + 1) ds

-- Four changes that cancel out, with at most one gain.
pub record IsSettled (winner : ℕ) (delta : List ℤ) : Type 0 where
  pub four : length delta ≡ 4
  pub cancels : total delta ≡ pos 0
  pub losers : OthersLose winner 0 delta

abbrev IsSeat : ℕ → Type 0
IsSeat i = (i ≡ 0) ⊎ ((i ≡ 1) ⊎ ((i ≡ 2) ⊎ (i ≡ 3)))

IsSeat-cases : (i : ℕ) → i < 4 → IsSeat i
IsSeat-cases i h = omega arith

-- A statement about a seat holds if it holds of each of the four.
on_seats : (P : ℕ → Type 0) (i : ℕ) → i < 4 → P 0 → P 1 → P 2 → P 3 → P i
on_seats P i h p0 p1 p2 p3 = elim (IsSeat-cases i h) [
  | inl e ↦ rw e p0
  | inr (inl e) ↦ rw e p1
  | inr (inr (inl e)) ↦ rw e p2
  | inr (inr (inr e)) ↦ rw e p3
]

settled :
    {winner : ℕ} {delta : List ℤ}
    → (length delta ≡ 4) × (total delta ≡ pos 0) × OthersLose winner 0 delta
    → IsSettled winner delta
settled h = record { four = h.0; cancels = h.1; losers = h.2 }

module _ (each pay_in other : ℕ) where
  abbrev SelfDrawn : ℕ → Type 0
  SelfDrawn w = (d : Option ℕ) → Returns (settle w each self_draw d pay_in other) (IsSettled w)

  settle-self_draw : (w : ℕ) → w < 4 → SelfDrawn w
  settle-self_draw w h =
      on_seats SelfDrawn w h (λ d. settled (omega int_laws)) (λ d. settled (omega int_laws))
        (λ d. settled (omega int_laws)) (λ d. settled (omega int_laws))

  abbrev DealtIn : WinType → ℕ → ℕ → Type 0
  DealtIn t w d = Returns (settle w each t (some d) pay_in other) (IsSettled w)

  settle-discard : (w d : ℕ) → w < 4 → d < 4 → w ≢ d → DealtIn discard w d
  settle-discard w d hw hd ne =
      on_seats (λ w. w ≢ d → DealtIn discard w d) w hw
        (λ n.
          on_seats (λ d. 0 ≢ d → DealtIn discard 0 d) d hd (λ n. absurd (n refl))
            (λ _. settled (omega int_laws)) (λ _. settled (omega int_laws))
            (λ _. settled (omega int_laws)) n)
        (λ n.
          on_seats (λ d. 1 ≢ d → DealtIn discard 1 d) d hd (λ _. settled (omega int_laws))
            (λ n. absurd (n refl)) (λ _. settled (omega int_laws)) (λ _. settled (omega int_laws))
            n)
        (λ n.
          on_seats (λ d. 2 ≢ d → DealtIn discard 2 d) d hd (λ _. settled (omega int_laws))
            (λ _. settled (omega int_laws)) (λ n. absurd (n refl)) (λ _. settled (omega int_laws))
            n)
        (λ n.
          on_seats (λ d. 3 ≢ d → DealtIn discard 3 d) d hd (λ _. settled (omega int_laws))
            (λ _. settled (omega int_laws)) (λ _. settled (omega int_laws)) (λ n. absurd (n refl))
            n)
        ne

  settle-DealtIn : (t : WinType) (w d : ℕ) → t ≢ self_draw → w < 4 → d < 4 → w ≢ d → DealtIn t w d
  settle-DealtIn self_draw w d h hw hd ne = absurd (h refl)
  settle-DealtIn discard w d h hw hd ne = settle-discard w d hw hd ne
  settle-DealtIn robbed_kong w d h hw hd ne = settle-discard w d hw hd ne
  settle-DealtIn last_tile w d h hw hd ne = settle-discard w d hw hd ne

-- The seat that dealt the win in, where there is one.
abbrev pub IsDealt : ℕ → WinType → Option ℕ → Type 0
IsDealt winner self_draw dealer = Unit
IsDealt winner _ none = ⊥
IsDealt winner _ (some dealer) = (dealer < 4) × (winner ≢ dealer)

settle-Returns :
    (winner each pay_in other : ℕ) (t : WinType) (dealer : Option ℕ)
    → winner < 4
    → IsDealt winner t dealer
    → Returns (settle winner each t dealer pay_in other) (IsSettled winner)
settle-Returns w each pay_in other self_draw dealer hw h =
    settle-self_draw each pay_in other w hw dealer
settle-Returns w each pay_in other t none hw h = ground arith
settle-Returns w each pay_in other t (some d) hw h =
    settle-DealtIn each pay_in other t w d (λ e. cc) hw h.0 h.1

-- The keys that the house table reads are there, with one tier at least.
pub record HouseTable (c : Conversion) : Type 0 where
  pub tiers : List (ℕ × ℕ)
  pub top : ℕ × ℕ
  pub each_mult : ℕ
  pub dealer_in_mult : ℕ
  pub other_mult : ℕ
  pub has_tiers : c.tiers ≡ some tiers
  pub has_top : last? tiers ≡ some top
  pub has_each : c.each_mult ≡ some each_mult
  pub has_dealer_in : c.dealer_in_mult ≡ some dealer_in_mult
  pub has_other : c.other_mult ≡ some other_mult

abbrev pub scheme_of : Conversion → String
scheme_of c = elim c.scheme [ none ↦ "mcr-official" | some s ↦ s ]

-- A conversion block that names a known scheme and has that scheme's keys.
abbrev pub IsUsable : Option Conversion → Type 0
IsUsable none = Unit
IsUsable (some c) = (scheme_of c ≡ "mcr-official") ⊎ ((scheme_of c ≡ "house-table") × HouseTable c)

scan_tiers-Returns :
    (fan : ℕ) (tiers : List (ℕ × ℕ)) (top : ℕ) → Returns (scan_tiers fan tiers (ok top)) (λ _. Unit)
scan_tiers-Returns fan [] top = tt
scan_tiers-Returns fan ((m, x) ∷ rest) top = elim (Bool-cases (leb fan m)) [
  | inl reached ↦ rw reached tt
  | inr above ↦ rw above (scan_tiers-Returns fan rest top)
]

lookup_x-Returns :
    (fan : ℕ) (tiers : List (ℕ × ℕ)) {top : ℕ × ℕ}
    → last? tiers ≡ some top
    → Returns (lookup_x fan tiers) (λ _. Unit)
unfolding lookup_x
lookup_x-Returns fan tiers {top} h = rw h (scan_tiers-Returns fan tiers top.1)

official-Returns :
    (winner fan : ℕ) (t : WinType) (dealer : Option ℕ) (c : Conversion)
    → winner < 4
    → IsDealt winner t dealer
    → Returns (official_delta winner fan t dealer c) (IsSettled winner)
unfolding official_delta
official-Returns winner fan t dealer c hw h = settle-Returns winner _ _ _ t dealer hw h

house-Returns :
    (winner fan : ℕ) (t : WinType) (dealer : Option ℕ) (c : Conversion)
    → winner < 4
    → IsDealt winner t dealer
    → HouseTable c
    → Returns (house_table_delta winner fan t dealer c) (IsSettled winner)
unfolding house_table_delta
house-Returns winner fan self_draw dealer c hw h k =
    rw (k.has_tiers, k.has_each)
      (Returns-bind (lookup_x fan k.tiers) _ (λ _. Unit) (IsSettled winner)
        (lookup_x-Returns fan k.tiers k.has_top)
        (λ x _. settle-Returns winner (k.each_mult * x) 0 0 self_draw dealer hw h))
house-Returns winner fan t none c hw h k = ground arith
house-Returns winner fan t (some d) c hw h k =
    rw (k.has_tiers, k.has_dealer_in, k.has_other)
      (Returns-bind (lookup_x fan k.tiers) _ (λ _. Unit) (IsSettled winner)
        (lookup_x-Returns fan k.tiers k.has_top)
        (λ x _. settle-Returns winner 0 (k.dealer_in_mult * x) (k.other_mult * x) t (some d) hw h))

-- With a usable conversion block, a winner among the four seats and, unless the win is
-- self-drawn, a discarder other than the winner, `score_delta` returns four changes that add up
-- to zero, and nobody but the winner gains.
pub score_delta-IsSettled :
    (winner fan : ℕ) (t : WinType) (dealer : Option ℕ) (conversion : Option Conversion)
    → winner < 4
    → IsDealt winner t dealer
    → IsUsable conversion
    → Returns (score_delta winner fan t dealer conversion) (IsSettled winner)
unfolding score_delta
score_delta-IsSettled winner fan t dealer none hw h u =
    official-Returns winner fan t dealer official_conversion hw h
score_delta-IsSettled winner fan t dealer (some c) hw h (inl e) =
    rw e (official-Returns winner fan t dealer c hw h)
score_delta-IsSettled winner fan t dealer (some c) hw h (inr (e, k)) =
    rw e (house-Returns winner fan t dealer c hw h k)
