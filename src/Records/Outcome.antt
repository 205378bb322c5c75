-- ===== src/Records/Outcome.antt =====
-- How an action of mahjong/engine/transition/ ends a hand: what the record of it relies on.
use mahjong_server_bot_zoo.Prelude.{
  ℕ, ◌+◌, ◌≡◌, ◌≢◌, refl, not, eqb, Option, none, some, List, [], ◌∷◌, set, keep, length,
}
use mahjong_server_bot_zoo.Prelude.Seq.{
  index, or_raise, assertion_error, remove, pop, Ensures, Ensures-bind,
}
use mahjong_server_bot_zoo.Tiles.{Tile, tile_eq}
use mahjong_server_bot_zoo.State.{
  Seat, GangKind, LastDiscard, PendingClaim, Terminal, Phase, GameState,
}
use mahjong_server_bot_zoo.Rules.{Env, resolve_config, calculate_fan, fan_sum}
use mahjong_server_bot_zoo.Rules.Scoring.{score_delta}
use mahjong_server_bot_zoo.Transition.{
  Drawn, draw_live, after_draw, draw_from, internal_draw, make_exhaustive_draw_terminal,
  draw_terminal, next_after, advance_to_next_seat_discard, open_or_advance,
  open_claim_window_or_advance, pending_claims_at, apply_play, after_pass, apply_pass, remove_n,
  promote, gang_exposed, gang_concealed, gang_added, apply_gang, win_in, credit_all, hu_terminal,
  apply_hu,
}

-- A hand that ends without a win ends in a draw.
abbrev pub EndsInDraw : GameState → Type 0
EndsInDraw t = t.phase ≡ Phase.terminal → t.outcome ≡ some draw_terminal

after_draw-EndsInDraw :
    (s : GameState) (seat : ℕ) (p : Seat) (d : Drawn) (o : Option Tile)
    → EndsInDraw (after_draw s seat p d o)
unfolding make_exhaustive_draw_terminal
after_draw-EndsInDraw s seat p d none e = refl
after_draw-EndsInDraw s seat p d (some t) e = absurd (cc)

draw_from-EndsInDraw :
    (wall : List Tile) (s : GameState) (seat : ℕ) → Ensures (draw_from wall s seat) EndsInDraw
unfolding make_exhaustive_draw_terminal
draw_from-EndsInDraw [] s seat = λ e. refl
draw_from-EndsInDraw (t ∷ wall) s seat = Ensures-bind (index s.seats seat) _ EndsInDraw (λ p e.
    let d = draw_live (t ∷ wall) p.flowers s.wall.drawn_count in
    after_draw-EndsInDraw s seat p d d.live)

internal_draw-EndsInDraw : (s : GameState) (seat : ℕ) → Ensures (internal_draw s seat) EndsInDraw
unfolding internal_draw
internal_draw-EndsInDraw s seat = draw_from-EndsInDraw s.wall.remaining s seat

advance-EndsInDraw : (s : GameState) → Ensures (advance_to_next_seat_discard s) EndsInDraw
unfolding advance_to_next_seat_discard
advance-EndsInDraw s = internal_draw-EndsInDraw _ (next_after s.last_discard s.current_actor)

open_or_advance-EndsInDraw :
    (s : GameState) (last : LastDiscard) (claims : List PendingClaim)
    → Ensures (open_or_advance s last claims) EndsInDraw
open_or_advance-EndsInDraw s last [] = advance-EndsInDraw s
open_or_advance-EndsInDraw s last (c ∷ cs) = λ e. absurd (cc)

pub apply_play-EndsInDraw :
    (env : Env) (s : GameState) (seat : ℕ) (t : Tile) → Ensures (apply_play env s seat t) EndsInDraw
unfolding apply_play open_claim_window_or_advance
apply_play-EndsInDraw env s seat t = Ensures-bind (index s.seats seat) _ EndsInDraw λ p e.
    Ensures-bind (remove t p.concealed) _ EndsInDraw λ rest e'.
      Ensures-bind (pending_claims_at env _ seat (0 ∷ 1 ∷ 2 ∷ 3 ∷ [])) _ EndsInDraw (λ claims k.
        open_or_advance-EndsInDraw _
          (record { tile = t; seat = seat; turn_index = s.turn_index + 1 }) claims)

after_pass-EndsInDraw :
    (s : GameState) (claims : List PendingClaim)
    → s.phase ≢ Phase.terminal
    → Ensures (after_pass s claims) EndsInDraw
after_pass-EndsInDraw s [] going = advance-EndsInDraw _
after_pass-EndsInDraw s (c ∷ cs) going = λ e. absurd (going e)

pub apply_pass-EndsInDraw :
    (s : GameState) (seat : ℕ) → s.phase ≢ Phase.terminal → Ensures (apply_pass s seat) EndsInDraw
unfolding apply_pass
apply_pass-EndsInDraw s seat going =
    after_pass-EndsInDraw s (keep (λ c. not (eqb c.seat seat)) s.pending_claims) going

pub apply_gang-EndsInDraw :
    (s : GameState) (seat : ℕ) (t : Tile) (kind : GangKind)
    → Ensures (apply_gang s seat t kind) EndsInDraw
unfolding apply_gang gang_exposed gang_concealed gang_added
apply_gang-EndsInDraw s seat t GangKind.exposed =
    Ensures-bind (or_raise s.last_discard assertion_error) _ EndsInDraw λ last e1.
      Ensures-bind (index s.seats seat) _ EndsInDraw λ p e2.
        Ensures-bind (remove_n 3 t p.concealed) _ EndsInDraw λ rest e3.
          Ensures-bind (index (set s.seats seat _) last.seat) _ EndsInDraw λ q e4.
            Ensures-bind (pop q.discards) _ EndsInDraw
              (λ discards e5. internal_draw-EndsInDraw _ seat)
apply_gang-EndsInDraw s seat t GangKind.concealed =
    Ensures-bind (index s.seats seat) _ EndsInDraw λ p e2.
      Ensures-bind (remove_n 4 t p.concealed) _ EndsInDraw
        (λ rest e3. internal_draw-EndsInDraw _ seat)
apply_gang-EndsInDraw s seat t GangKind.added =
    Ensures-bind (index s.seats seat) _ EndsInDraw λ p e2.
      Ensures-bind (remove t p.concealed) _ EndsInDraw λ rest e3.
        Ensures-bind (promote t p.melds) _ EndsInDraw (λ melds e4. internal_draw-EndsInDraw _ seat)

-- The hand was won by this seat.
abbrev pub WonBy : ℕ → GameState → Type 0
WonBy seat t = (o : Terminal) × (t.outcome ≡ some o) × (o.winner ≡ some seat)

pub apply_hu-WonBy :
    (env : Env) (s : GameState) (seat : ℕ) → Ensures (apply_hu env s seat) (WonBy seat)
unfolding apply_hu
apply_hu-WonBy env s seat = Ensures-bind (resolve_config env s.rules) _ (WonBy seat) λ c e1.
    Ensures-bind (index s.seats seat) _ (WonBy seat) λ p e2.
      Ensures-bind (win_in s.phase s seat p) _ (WonBy seat) λ w e3.
        Ensures-bind
          (calculate_fan env w.hand p.melds w.tile w.win_type p.seat_wind s.round_wind c
            (length p.flowers))
          _ (WonBy seat)
          λ fans e4.
            Ensures-bind (score_delta seat (fan_sum fans) w.win_type w.deal_in_seat c.conversion) _
              (WonBy seat)
              λ delta e5.
                Ensures-bind (credit_all delta s.seats) _ (WonBy seat)
                  (λ seats e6. (hu_terminal seat w fans delta, refl, refl))
