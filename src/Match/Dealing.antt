-- ===== src/Match/Dealing.antt =====
-- The dealers of mahjong/table/rotation.py.
use mahjong_server_bot_zoo.Prelude.{
  ℕ, zero, suc, eqb_iff, ap, ◌+◌, ◌<◌, ◌%◌, false, ◌≡◌, ◌⊎◌, inl, inr, refl, true, Option, none,
  some, arith, eqb, Bool-cases,
}
use mahjong_server_bot_zoo.State.{Terminal, TerminalKind}
use mahjong_server_bot_zoo.Rules.{Config}
use mahjong_server_bot_zoo.Match.Defs.{won_by, next_dealer}

-- The next of the four seats.
abbrev pub seat_after : ℕ → ℕ
seat_after zero = 1
seat_after (suc zero) = 2
seat_after (suc (suc zero)) = 3
seat_after (suc (suc (suc i))) = 0

-- The hand was won by this seat.
abbrev pub IsWonBy : ℕ → Option Terminal → Type 0
IsWonBy seat terminal =
    (t : Terminal) × (terminal ≡ some t) × (t.kind ≡ TerminalKind.hu) × (t.winner ≡ some seat)

won_parts :
    (seat : ℕ) (kind : TerminalKind) (winner : Option ℕ)
    → elim kind [
      | TerminalKind.draw ↦ false
      | TerminalKind.hu ↦ elim winner [ none ↦ false | some w ↦ eqb w seat ]
    ]
      ≡ true
    → (kind ≡ TerminalKind.hu) × (winner ≡ some seat)
won_parts seat TerminalKind.draw winner h = absurd (cc)
won_parts seat TerminalKind.hu none h = absurd (cc)
won_parts seat TerminalKind.hu (some w) h = (refl, ap some ((eqb_iff w seat).0 h))

next_seat : (dealer : ℕ) → dealer < 4 → (dealer + 1) % 4 ≡ seat_after dealer
next_seat zero lt = refl
next_seat (suc zero) lt = refl
next_seat (suc (suc zero)) lt = refl
next_seat (suc (suc (suc zero))) lt = refl
next_seat (suc (suc (suc (suc i)))) lt = absurd (omega arith)

won_by-IsWonBy :
    (seat : ℕ) (terminal : Option Terminal) → won_by seat terminal ≡ true → IsWonBy seat terminal
won_by-IsWonBy seat none h = absurd (cc)
won_by-IsWonBy seat (some t) h =
    let (kind, winner) = won_parts seat t.kind t.winner h in (t, refl, kind, winner)

IsWonBy-won_by :
    (seat : ℕ) (terminal : Option Terminal) → IsWonBy seat terminal → won_by seat terminal ≡ true
IsWonBy-won_by seat terminal (t, e, kind, winner) =
    rw (e, kind, winner) ((eqb_iff seat seat).1 refl)

-- Either the ruleset repeats the dealer and the dealer has won, and it deals again; or not both are
-- so, and the seat after it deals.
pub next_dealer_lem :
    (dealer : ℕ) (terminal : Option Terminal) (config : Config)
    → dealer < 4
    → ((config.dealer_repeat_on_win ≡ true)
        × IsWonBy dealer terminal
        × (next_dealer dealer terminal config ≡ dealer))
      ⊎ (¬ ((config.dealer_repeat_on_win ≡ true) × IsWonBy dealer terminal)
          × (next_dealer dealer terminal config ≡ seat_after dealer))
unfolding next_dealer
next_dealer_lem dealer terminal config lt = elim (Bool-cases config.dealer_repeat_on_win) [
  | inr passes ↦ inr (λ both. let r = both.0 in cc, rw passes (next_seat dealer lt))
  | inl repeats ↦ elim (Bool-cases (won_by dealer terminal)) [
    | inr lost ↦ inr (
      λ both. let w = IsWonBy-won_by dealer terminal both.1 in cc,
      rw (repeats, lost) (next_seat dealer lt),
    )
    | inl won ↦ inl (repeats, won_by-IsWonBy dealer terminal won, rw (repeats, won) refl)
  ]
]
