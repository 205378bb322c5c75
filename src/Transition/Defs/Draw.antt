-- ===== src/Transition/Defs/Draw.antt =====
-- The shared helpers of mahjong/engine/transition/__init__.py: drawing and opening a claim window.
use mahjong_server_bot_zoo.Prelude.{
  ℕ, ◌+◌, ◌%◌, Option, none, some, List, [], ◌∷◌, ◌++◌, eqb, if◌then◌else◌, set,
}
use mahjong_server_bot_zoo.Prelude.Int.{pos}
use mahjong_server_bot_zoo.Prelude.Seq.{Result, ok, err, assertion_error, index, ◌>>=◌}
use mahjong_server_bot_zoo.Prelude.Sorting.{sort}
use mahjong_server_bot_zoo.Tiles.{Tile, tile_le, is_flower}
use mahjong_server_bot_zoo.State.{
  Action, ClaimType, PendingClaim, Seat, LastDiscard, Terminal, TerminalKind, Phase, GameState,
}
use mahjong_server_bot_zoo.Rules.{Env}
use mahjong_server_bot_zoo.Legality.{claim_actions}

abbrev pub draw_terminal : Terminal
draw_terminal = record {
  kind = TerminalKind.draw;
  winner = none;
  win_tile = none;
  win_type = none;
  deal_in_seat = none;
  fan = [];
  fan_total = 0;
  score_delta = pos 0 ∷ pos 0 ∷ pos 0 ∷ pos 0 ∷ [];
}

unfoldable pub make_exhaustive_draw_terminal : GameState → GameState
make_exhaustive_draw_terminal s = record s {
  phase = Phase.terminal;
  last_drawn = none;
  outcome = some draw_terminal;
}

-- What popping the wall gives: the first tile that is no flower, the wall after it, the flowers
-- and the number of tiles drawn.
pub record Drawn : Type 0 where
  pub live : Option Tile
  pub rest : List Tile
  pub flowers : List Tile
  pub drawn_count : ℕ

unfoldable pub draw_live : List Tile → List Tile → ℕ → Drawn
draw_live [] flowers n = record { live = none; rest = []; flowers = flowers; drawn_count = n }
draw_live (t ∷ wall) flowers n =
    let next = draw_live wall (flowers ++ t ∷ []) (n + 1) in
    if is_flower t
    then next
    else record { live = some t; rest = wall; flowers = flowers; drawn_count = n + 1 }

-- The state after the pops: the tile goes to the hand, or the hand ends in a draw.
abbrev pub after_draw : GameState → ℕ → Seat → Drawn → Option Tile → GameState
after_draw s seat p d none = make_exhaustive_draw_terminal (record s {
  wall = record { remaining = d.rest; drawn_count = d.drawn_count; total = s.wall.total };
  seats = set s.seats seat (record p { flowers = d.flowers });
})
after_draw s seat p d (some t) = record s {
  wall = record { remaining = d.rest; drawn_count = d.drawn_count; total = s.wall.total };
  seats =
      set s.seats seat
        (record p { concealed = sort tile_le (p.concealed ++ t ∷ []); flowers = d.flowers });
  phase = Phase.discard;
  current_actor = seat;
  last_drawn = some (record { seat = seat; tile = t });
}

abbrev pub draw_from : List Tile → GameState → ℕ → Result GameState
draw_from [] s seat = ok (make_exhaustive_draw_terminal s)
draw_from (t ∷ wall) s seat = do
  p ← index s.seats seat
  let d = draw_live (t ∷ wall) p.flowers s.wall.drawn_count
  ok (after_draw s seat p d d.live)

unfoldable pub internal_draw : GameState → ℕ → Result GameState
internal_draw s seat = draw_from s.wall.remaining s seat

abbrev pub next_after : Option LastDiscard → ℕ → ℕ
next_after none actor = (actor + 1) % 4
next_after (some last) actor = (last.seat + 1) % 4

unfoldable pub advance_to_next_seat_discard : GameState → Result GameState
advance_to_next_seat_discard s =
    internal_draw (record s { last_discard = none; pending_claims = [] })
      (next_after s.last_discard s.current_actor)

abbrev pub claim_kind : Action → Result ClaimType
claim_kind (Action.gang _ _) = ok ClaimType.gang
claim_kind Action.hu = ok ClaimType.hu
claim_kind (Action.peng _) = ok ClaimType.peng
claim_kind (Action.chi _) = ok ClaimType.chi
claim_kind _ = err assertion_error

abbrev pub chi_tiles_of : Action → Option (List Tile)
chi_tiles_of (Action.chi ts) = some ts
chi_tiles_of _ = none

-- The entries of one seat; PASS is no entry.
unfoldable pub pending_of : ℕ → List Action → Result (List PendingClaim)
pending_of seat [] = ok []
pending_of seat (Action.pass ∷ rest) = pending_of seat rest
pending_of seat (a ∷ rest) = claim_kind a >>= λ kind. pending_of seat rest >>= λ more.
    ok (record { seat = seat; claim = kind; chi_tiles = chi_tiles_of a } ∷ more)

abbrev pub open_or_advance : GameState → LastDiscard → List PendingClaim → Result GameState
open_or_advance s last [] = advance_to_next_seat_discard s
open_or_advance s last (c ∷ cs) = ok (record s {
  pending_claims = c ∷ cs;
  phase = Phase.claim_window;
  current_actor = (last.seat + 1) % 4;
})

module _ (env : Env) where
  unfoldable pub pending_claims_at : GameState → ℕ → List ℕ → Result (List PendingClaim)
  pending_claims_at s discarder [] = ok []
  pending_claims_at s discarder (seat ∷ more) =
      let rest = pending_claims_at s discarder more in
      if eqb seat discarder then rest else (do
        actions ← claim_actions env s seat
        entries ← pending_of seat actions
        later ← rest
        ok (entries ++ later))

  abbrev pub open_on : Option LastDiscard → GameState → Result GameState
  open_on none s = ok s
  open_on (some last) s =
      pending_claims_at s last.seat (0 ∷ 1 ∷ 2 ∷ 3 ∷ []) >>= λ claims. open_or_advance s last claims

  unfoldable pub open_claim_window_or_advance : GameState → Result GameState
  open_claim_window_or_advance s = open_on s.last_discard s
