-- ===== src/Tiles/Canonical.antt =====
-- The canonical set of tiles in mahjong/engine/tiles.py against the table of its sections.
use mahjong_server_bot_zoo.Prelude.{◌≡◌, refl, length}
use mahjong_server_bot_zoo.Tiles.{canonical_tile_set}

length-canonical_tile_set : length canonical_tile_set ≡ 144
unfolding canonical_tile_set
length-canonical_tile_set = refl
