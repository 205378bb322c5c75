-- ===== src/Transition/Passing.antt =====
-- PASS in mahjong/engine/transition/pass_.py: the window waits for the others, or closes.
use mahjong_server_bot_zoo.Prelude.{
  ℕ, ◌<◌, ◌≡◌, ◌≢◌, refl, Option, none, some, List, [], ◌∷◌, arith, eqb, not, keep, length,
}
use mahjong_server_bot_zoo.Prelude.Seq.{
  index, Returns, Returns-imp, Returns-Ensures, Ensures, Ensures-bind,
}
use mahjong_server_bot_zoo.Tiles.{Tile}
use mahjong_server_bot_zoo.State.{Seat, LastDiscard, PendingClaim, Phase, GameState}
use mahjong_server_bot_zoo.Rules.{Env}
use mahjong_server_bot_zoo.Transition.{
  Drawn, draw_live, after_draw, draw_from, internal_draw, make_exhaustive_draw_terminal, next_after,
  advance_to_next_seat_discard, after_pass, apply_pass,
}
use mahjong_server_bot_zoo.Transition.Invariant.{IsSound, Continues}
use mahjong_server_bot_zoo.Transition.Claiming.{last_pass-Continues}

-- No window is open.
abbrev pub IsClosed : GameState → Type 0
IsClosed t = t.phase ≢ Phase.claim_window

after_draw-IsClosed :
    (s : GameState) (seat : ℕ) (p : Seat) (d : Drawn) (o : Option Tile)
    → IsClosed (after_draw s seat p d o)
unfolding make_exhaustive_draw_terminal
after_draw-IsClosed s seat p d none e = cc
after_draw-IsClosed s seat p d (some t) e = cc

draw_from-IsClosed :
    (wall : List Tile) (s : GameState) (seat : ℕ) → Ensures (draw_from wall s seat) IsClosed
unfolding make_exhaustive_draw_terminal
draw_from-IsClosed [] s seat = λ e. cc
draw_from-IsClosed (t ∷ wall) s seat = Ensures-bind (index s.seats seat) _ IsClosed (λ p e.
    let d = draw_live (t ∷ wall) p.flowers s.wall.drawn_count in
    after_draw-IsClosed s seat p d d.live)

closing-IsClosed : (s : GameState) → Ensures (after_pass s []) IsClosed
unfolding advance_to_next_seat_discard internal_draw
closing-IsClosed s =
    draw_from-IsClosed s.wall.remaining _ (next_after s.last_discard s.current_actor)

-- What a PASS by `seat` leads to: with entries of others left the window stays open without this
-- seat's; else it closes.
abbrev pub left_after : GameState → ℕ → List PendingClaim
left_after s seat = keep (λ c. not (eqb c.seat seat)) s.pending_claims

pub data Passed (env : Env) (s : GameState) (seat : ℕ) (t : GameState) : Type 0 where
  stays :
      t ≡ record s { pending_claims = left_after s seat }
      → 0 < length (left_after s seat)
      → Passed env s seat t
  closes : IsClosed t → Continues env s t → Passed env s seat t

module _ (env : Env) (s : GameState) (last : LastDiscard) (seat : ℕ) (sound : IsSound env s)
    (phase : s.phase ≡ Phase.claim_window) (opened : s.last_discard ≡ some last) where
  after_pass-Passed :
      (claims : List PendingClaim)
      → left_after s seat ≡ claims
      → Returns (after_pass s claims) (Passed env s seat)
  after_pass-Passed [] e =
      Returns-imp (after_pass s []) _ (Passed env s seat) (λ t h. closes h.1 h.0)
        (Returns-Ensures (after_pass s []) (Continues env s) IsClosed
          (last_pass-Continues env s last sound phase opened) (closing-IsClosed s))
  after_pass-Passed (c ∷ cs) e = stays (rw e refl) (rw e (omega arith))

  -- On a sound state in the claim window a PASS keeps the window open for the other entries, or
  -- closes it and the hand goes on.
  pub apply_pass-Passed : Returns (apply_pass s seat) (Passed env s seat)
  unfolding apply_pass
  apply_pass-Passed = after_pass-Passed (left_after s seat) refl
