-- ===== src/Match/Defs.antt =====
-- The functions of mahjong/table/match_score.py and mahjong/table/rotation.py.
use mahjong_server_bot_zoo.Prelude.{
  ℕ, ◌+◌, ◌%◌, Bool, false, ◌&&◌, Option, none, some, List, [], ◌∷◌, ◌++◌, eqb, if◌then◌else◌,
  length,
}
use mahjong_server_bot_zoo.Prelude.Int.{ℤ, pos, ◌+ℤ◌}
use mahjong_server_bot_zoo.Prelude.Seq.{Result, ok, err, index_error, ◌>>=◌}
use mahjong_server_bot_zoo.State.{Terminal, TerminalKind}
use mahjong_server_bot_zoo.Rules.{Config}

abbrev pub no_points : List ℤ
no_points = pos 0 ∷ pos 0 ∷ pos 0 ∷ pos 0 ∷ []

abbrev pub hand_deltas : Option Terminal → List ℤ
hand_deltas none = no_points
hand_deltas (some t) = if eqb (length t.score_delta) 4 then t.score_delta else no_points

pub record MatchScore : Type 0 where
  pub cumulative : List ℤ
  pub series : List (List ℤ)

abbrev pub new_match : MatchScore
new_match = record { cumulative = no_points; series = [] }

-- `for seat, delta in enumerate(deltas): cumulative[seat] += delta`
abbrev pub add_deltas : List ℤ → List ℤ → Result (List ℤ)
add_deltas cs [] = ok cs
add_deltas [] (d ∷ ds) = err index_error
add_deltas (c ∷ cs) (d ∷ ds) = add_deltas cs ds >>= λ rest. ok ((c +ℤ d) ∷ rest)

unfoldable pub record_hand : MatchScore → Option Terminal → Result MatchScore
record_hand m terminal = add_deltas m.cumulative (hand_deltas terminal) >>= λ totals.
    ok (record { cumulative = totals; series = m.series ++ totals ∷ [] })

-- A match: its hands one after the other.
abbrev pub record_hands : MatchScore → List (Option Terminal) → Result MatchScore
record_hands m [] = ok m
record_hands m (t ∷ ts) = record_hand m t >>= λ m'. record_hands m' ts

abbrev pub won_by : ℕ → Option Terminal → Bool
won_by dealer none = false
won_by dealer (some t) = elim t.kind [
  | TerminalKind.draw ↦ false
  | TerminalKind.hu ↦ elim t.winner [ none ↦ false | some w ↦ eqb w dealer ]
]

unfoldable pub next_dealer : ℕ → Option Terminal → Config → ℕ
next_dealer current_dealer terminal config =
    if config.dealer_repeat_on_win && won_by current_dealer terminal
    then current_dealer
    else (current_dealer + 1) % 4
