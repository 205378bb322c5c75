-- ===== src/Legality/Defs/Claim.antt =====
-- mahjong/engine/legality/claim.py.
use mahjong_server_bot_zoo.Prelude.{
  ℕ, ◌+◌, ◌-◌, ◌%◌, Bool, true, false, not, ◌&&◌, ◌||◌, Option, none, some, List, [], ◌∷◌, ◌++◌,
  eqb, leb, ltb, if◌then◌else◌, ◌==◌, length, keep, all,
}
use mahjong_server_bot_zoo.Prelude.Counting.{count}
use mahjong_server_bot_zoo.Prelude.Seq.{Result, ok, index, ◌>>=◌}
use mahjong_server_bot_zoo.Prelude.Sorting.{sort}
use mahjong_server_bot_zoo.Tiles.{
  Tile, tile, Section, wan, bing, tiao, section_index, tile_le, tile_eq,
}
use mahjong_server_bot_zoo.State.{Action, GangKind, Meld, LastDiscard, WinType, GameState}
use mahjong_server_bot_zoo.Rules.{Config, Env, resolve_config, calculate_fan}
use mahjong_server_bot_zoo.Legality.Defs.Discard.{is_nil}

abbrev pub is_suited : Section → Bool
is_suited wan = true
is_suited bing = true
is_suited tiao = true
is_suited _ = false

-- The three tiles of a run that starts at rank `r`.
abbrev pub run_from : Section → ℕ → List Tile
run_from s r = tile s r ∷ tile s (r + 1) ∷ tile s (r + 2) ∷ []

abbrev pub needed : Tile → List Tile → List Tile
needed discarded tiles = keep (λ t. not (t == discarded)) tiles

-- `hand_counts.get(t, 0) >= needed.count(t)` for each `t`.
abbrev pub has_all : List Tile → List Tile → Bool
has_all hand want = all (λ t. leb (count t want) (count t hand)) want

abbrev pub same_section : Section → List Tile → List Tile
same_section s hand = keep (λ t. eqb (section_index t.section) (section_index s)) hand

-- The run in which the discard stands `back` places behind the start, if its ranks are 1 to 9.
unfoldable pub chi_at : List Tile → Tile → ℕ → List Action
chi_at hand discarded back =
    let start : ℕ = discarded.rank - back in
    let tiles : List Tile = run_from discarded.section start in
    if leb discarded.rank back || ltb 9 (start + 2)
    then []
    else if has_all (same_section discarded.section hand) (needed discarded tiles)
    then Action.chi (sort tile_le tiles) ∷ []
    else []

unfoldable pub chi_actions : List Tile → Tile → List Action
unfolding chi_at
chi_actions hand discarded =
    if not (is_suited discarded.section)
    then []
    else chi_at hand discarded 2 ++ (chi_at hand discarded 1 ++ chi_at hand discarded 0)

-- PENG, exposed GANG and CHI, in the order in which they are listed.
unfoldable pub meld_claims : List Tile → List Tile → Tile → Bool → List Action
meld_claims wall hand discarded is_next =
    (if leb 2 (count discarded hand) then Action.peng discarded ∷ [] else [])
    ++ ((if not (is_nil wall) && leb 3 (count discarded hand)
          then Action.gang discarded GangKind.exposed ∷ []
          else [])
        ++ (if is_next then chi_actions hand discarded else []))

module _ (env : Env) where
  unfoldable pub claim_hu_legal : List Tile → List Meld → Tile → Tile → Tile → Config → Result Bool
  claim_hu_legal concealed melds win_tile seat_wind round_wind config =
      if not (eqb (length concealed % 3) 1) then ok false else (do
        fans ←
            calculate_fan env concealed melds win_tile WinType.discard seat_wind round_wind config 0
        ok (not (is_nil fans)))

  abbrev pub claims_on : Option LastDiscard → GameState → ℕ → Result (List Action)
  claims_on none s seat = ok []
  claims_on (some last) s seat = if eqb seat last.seat then ok [] else (do
    p ← index s.seats seat
    config ← resolve_config env s.rules
    hu ← claim_hu_legal p.concealed p.melds last.tile p.seat_wind s.round_wind config
    ok (
        Action.pass
        ∷ (meld_claims s.wall.remaining p.concealed last.tile (eqb seat ((last.seat + 1) % 4))
            ++ (if hu then Action.hu ∷ [] else []))))

  unfoldable pub claim_actions : GameState → ℕ → Result (List Action)
  claim_actions s seat = claims_on s.last_discard s seat
