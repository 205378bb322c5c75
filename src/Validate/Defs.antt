-- ===== src/Validate/Defs.antt =====
-- `validate_state_invariants` of mahjong/engine/types.py.
use mahjong_server_bot_zoo.Prelude.{Bool, false, not, Option, none, some, List, [], ◌∷◌}
use mahjong_server_bot_zoo.Prelude.Seq.{Result, ok, invalid_state, guard, ◌>>◌}
use mahjong_server_bot_zoo.Tiles.{Tile, token, validate_tile, tile_sort_key, key_le}
use mahjong_server_bot_zoo.State.{Seat, GameState}

-- `prev_key is not None and key < prev_key`
abbrev pub out_of_order : Option Tile → Tile → Bool
out_of_order none t = false
out_of_order (some prev) t = not (key_le (tile_sort_key prev) (tile_sort_key t))

unfoldable pub check_concealed_sorted : Option Tile → List Tile → Result (Unit {0})
check_concealed_sorted prev [] = ok tt
check_concealed_sorted prev (t ∷ concealed) =
    guard (validate_tile (token t)) invalid_state
    >> (guard (not (out_of_order prev t)) invalid_state
        >> check_concealed_sorted (some t) concealed)

abbrev pub check_seats : List Seat → Result (Unit {0})
check_seats [] = ok tt
check_seats (p ∷ seats) = check_concealed_sorted none p.concealed >> check_seats seats

unfoldable pub validate_state_invariants : GameState → Result (Unit {0})
unfolding check_concealed_sorted
validate_state_invariants s = check_seats s.seats
