-- ===== src/Tiles/Order.antt =====
-- The canonical order of tiles in mahjong/engine/tiles.py.
use mahjong_server_bot_zoo.Prelude.{◌≡◌, true, false, List, arith}
use mahjong_server_bot_zoo.Prelude.Sorting.{sort, is_sorted, sort-is_sorted}
use mahjong_server_bot_zoo.Tiles.{Tile, tile_le}

tile_le-total : (a b : Tile) → tile_le a b ≡ false → tile_le b a ≡ true
tile_le-total a b h = ground arith

pub tile_le_antisymm : (a b : Tile) → tile_le a b ≡ true → tile_le b a ≡ true → a ≡ b
tile_le_antisymm a b h k = ground arith

-- Any list of tiles sorted by the canonical order is in that order.
pub sort_tiles-is_sorted : (xs : List Tile) → is_sorted tile_le (sort tile_le xs) ≡ true
sort_tiles-is_sorted xs = sort-is_sorted tile_le tile_le-total xs

pub tile_le_trans : (a b c : Tile) → tile_le a b ≡ true → tile_le b c ≡ true → tile_le a c ≡ true
tile_le_trans a b c h k = ground arith
