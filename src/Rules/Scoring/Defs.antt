-- ===== src/Rules/Scoring/Defs.antt =====
-- The conversion schemes of mahjong/engine/scoring.py.
use Prim.Native.String.{String}
use text.Mathlib.Text.{◌==◌ as str_eq}
use mahjong_server_bot_zoo.Prelude.{
  ℕ, ◌+◌, ◌*◌, Bool, ◌||◌, Option, none, some, List, [], ◌∷◌, leb, eqb, if◌then◌else◌, set,
}
use mahjong_server_bot_zoo.Prelude.Int.{ℤ, pos, ◌+ℤ◌, ◌-ℤ◌}
use mahjong_server_bot_zoo.Prelude.Seq.{
  Result, ok, err, value_error, key_error, assertion_error, index_error, or_raise, index, last?,
  ◌>>=◌,
}
use mahjong_server_bot_zoo.State.{WinType, self_draw}
use mahjong_server_bot_zoo.Rules.Inputs.{Conversion}

abbrev pub official_base : ℕ
official_base = 8

abbrev pub option_or : Option ℕ → ℕ → ℕ
option_or none d = d
option_or (some v) d = v

-- A block with no key: every value is the default.
abbrev pub official_conversion : Conversion
official_conversion = record {
  scheme = some "mcr-official";
  tiers = none;
  base_each = none;
  base_dealer_in = none;
  base_other = none;
  each_mult = none;
  dealer_in_mult = none;
  other_mult = none;
}

-- The loop over the tiers, and `top` where no tier reaches the total.
abbrev pub scan_tiers : ℕ → List (ℕ × ℕ) → Result ℕ → Result ℕ
scan_tiers fan_total [] top = top
scan_tiers fan_total ((max_fan, x) ∷ rest) top =
    let next = scan_tiers fan_total rest top in if leb fan_total max_fan then ok x else next

-- The first tier that reaches the total, or the last one.
unfoldable pub lookup_x : ℕ → List (ℕ × ℕ) → Result ℕ
lookup_x fan_total tiers =
    scan_tiers fan_total tiers (or_raise (last? tiers) index_error >>= λ top. ok top.1)

-- `delta[loser] = -pay; delta[winner] += pay`
abbrev pub pay : ℕ → ℕ → ℕ → List ℤ → Result (List ℤ)
pay winner loser amount delta = do
  _ ← index delta loser
  let charged = set delta loser (pos 0 -ℤ pos amount)
  won ← index charged winner
  ok (set charged winner (won +ℤ pos amount))

abbrev pub no_delta : List ℤ
no_delta = pos 0 ∷ pos 0 ∷ pos 0 ∷ pos 0 ∷ []

-- `for i in range(4): if skip(i): continue; pay`
abbrev pub pay_seats : (ℕ → Bool) → ℕ → ℕ → List ℤ → Result (List ℤ)
pay_seats skip winner amount delta = do
  d0 ← (if skip 0 then ok delta else pay winner 0 amount delta)
  d1 ← (if skip 1 then ok d0 else pay winner 1 amount d0)
  d2 ← (if skip 2 then ok d1 else pay winner 2 amount d1)
  if skip 3 then ok d2 else pay winner 3 amount d2

-- The losers' payments: each loser pays `each` on a self-draw, else the discarder pays `pay_in`
-- and the others `pay_other`.
abbrev pub settle : ℕ → ℕ → WinType → Option ℕ → ℕ → ℕ → Result (List ℤ)
settle winner each self_draw deal_in_seat pay_in pay_other =
    pay_seats (λ i. eqb i winner) winner each no_delta
settle winner each _ deal_in_seat pay_in pay_other = do
  dealer ← or_raise deal_in_seat assertion_error
  delta ← pay winner dealer pay_in no_delta
  pay_seats (λ i. eqb i winner || eqb i dealer) winner pay_other delta

unfoldable pub official_delta : ℕ → ℕ → WinType → Option ℕ → Conversion → Result (List ℤ)
official_delta winner fan_total win_type deal_in_seat conv =
    settle winner (fan_total + option_or conv.base_each official_base) win_type deal_in_seat
      (fan_total + option_or conv.base_dealer_in official_base)
      (option_or conv.base_other official_base)

-- The keys of a branch are read only in that branch.
unfoldable pub house_table_delta : ℕ → ℕ → WinType → Option ℕ → Conversion → Result (List ℤ)
unfolding lookup_x
house_table_delta winner fan_total self_draw deal_in_seat conv = do
  tiers ← or_raise conv.tiers key_error
  x ← lookup_x fan_total tiers
  each ← or_raise conv.each_mult key_error
  settle winner (each * x) self_draw deal_in_seat 0 0
house_table_delta winner fan_total win_type deal_in_seat conv = do
  tiers ← or_raise conv.tiers key_error
  x ← lookup_x fan_total tiers
  _ ← or_raise deal_in_seat assertion_error
  dealer_in ← or_raise conv.dealer_in_mult key_error
  other ← or_raise conv.other_mult key_error
  settle winner 0 win_type deal_in_seat (dealer_in * x) (other * x)

unfoldable pub score_delta : ℕ → ℕ → WinType → Option ℕ → Option Conversion → Result (List ℤ)
unfolding official_delta house_table_delta
score_delta winner fan_total win_type deal_in_seat conversion =
    let conv : Conversion = elim conversion [ none ↦ official_conversion | some c ↦ c ] in
    let scheme : String = elim conv.scheme [ none ↦ "mcr-official" | some s ↦ s ] in
    if str_eq scheme "mcr-official"
    then official_delta winner fan_total win_type deal_in_seat conv
    else if str_eq scheme "house-table"
    then house_table_delta winner fan_total win_type deal_in_seat conv
    else err value_error
