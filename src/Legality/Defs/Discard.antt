-- ===== src/Legality/Defs/Discard.antt =====
-- mahjong/engine/legality/discard.py.
use mahjong_server_bot_zoo.Prelude.{
  ℕ, ◌%◌, Bool, true, false, not, ◌&&◌, Option, none, some, List, [], ◌∷◌, ◌++◌, map, eqb, leb,
  if◌then◌else◌, length, keep,
}
use mahjong_server_bot_zoo.Prelude.Counting.{count, contains}
use mahjong_server_bot_zoo.Prelude.Seq.{Result, ok, index, first, remove, ◌>>=◌}
use mahjong_server_bot_zoo.Prelude.Sorting.{sort}
use mahjong_server_bot_zoo.Tiles.{Tile, token_le, tile_eq}
use mahjong_server_bot_zoo.State.{
  Action, GangKind, Meld, MeldType, Seat, LastDrawn, WinType, GameState,
}
use mahjong_server_bot_zoo.Rules.{Config, Env, resolve_config, calculate_fan}

-- The keys of `Counter(tiles)`.
abbrev pub distinct : List Tile → List Tile
distinct [] = []
distinct (t ∷ ts) = let rest = distinct ts in if contains t ts then rest else t ∷ rest

-- `sorted(counts)`: tokens compare as texts.
abbrev pub sorted_distinct : List Tile → List Tile
sorted_distinct ts = sort token_le (distinct ts)

abbrev pub is_nil {ℓ} : {A : Type ℓ} → List A → Bool
is_nil [] = true
is_nil (_ ∷ _) = false

abbrev pub is_peng : MeldType → Bool
is_peng MeldType.peng = true
is_peng _ = false

-- `m["tiles"][0] for m in melds if m["type"] == "PENG"`
unfoldable pub peng_tiles : List Meld → Result (List Tile)
peng_tiles [] = ok []
peng_tiles (m ∷ ms) =
    let rest = peng_tiles ms in
    if is_peng m.kind then (first m.tiles >>= λ t. rest >>= λ ts. ok (t ∷ ts)) else rest

abbrev pub concealed_gangs : List Tile → List Action
concealed_gangs ts =
    map (λ t. Action.gang t GangKind.concealed)
      (keep (λ t. eqb (count t ts) 4) (sorted_distinct ts))

abbrev pub added_gangs : List Tile → List Tile → List Action
added_gangs ts pengs =
    map (λ t. Action.gang t GangKind.added) (keep (λ t. leb 1 (count t ts)) (sorted_distinct pengs))

-- No kong once the wall is empty.
unfoldable pub gang_actions : List Tile → Seat → Result (List Action)
gang_actions wall p =
    if is_nil wall
    then ok []
    else (peng_tiles p.melds >>= λ pengs.
        ok (concealed_gangs p.concealed ++ added_gangs p.concealed pengs))

module _ (env : Env) where
  unfoldable pub self_draw_hu_legal :
      List Tile → List Meld → Tile → Tile → Tile → Config → Result Bool
  self_draw_hu_legal concealed melds win_tile seat_wind round_wind config =
      if not (eqb (length concealed % 3) 2 && contains win_tile concealed) then ok false else (do
        remaining ← remove win_tile concealed
        fans ←
            calculate_fan env remaining melds win_tile WinType.self_draw seat_wind round_wind config
              0
        ok (not (is_nil fans)))

  -- Winning on the tile that this seat has just drawn.
  abbrev pub self_draw_legal : Option LastDrawn → ℕ → Seat → Tile → Config → Result Bool
  self_draw_legal none seat p round_wind config = ok false
  self_draw_legal (some drawn) seat p round_wind config =
      if eqb drawn.seat seat
      then self_draw_hu_legal p.concealed p.melds drawn.tile p.seat_wind round_wind config
      else ok false

  unfoldable pub discard_actions : GameState → ℕ → Result (List Action)
  discard_actions s seat = if not (eqb seat s.current_actor) then ok [] else (do
    p ← index s.seats seat
    gangs ← gang_actions s.wall.remaining p
    config ← resolve_config env s.rules
    hu ← self_draw_legal s.last_drawn seat p s.round_wind config
    ok (
        map Action.play (sorted_distinct p.concealed)
        ++ (gangs ++ (if hu then Action.hu ∷ [] else []))))
