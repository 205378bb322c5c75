-- ===== src/Rules/Pymj.antt =====
-- mahjong/engine/pymj.py: the one place where the fan calculator is called.
use text.Mathlib.Text.{◌==◌ as str_eq}
use mahjong_server_bot_zoo.Prelude.{
  ℕ, ◌+◌, ◌*◌, Bool, true, false, Option, none, some, List, [], ◌∷◌, map, ltb, eqb, if◌then◌else◌,
}
use mahjong_server_bot_zoo.Prelude.Sorting.{sort}
use mahjong_server_bot_zoo.Prelude.Seq.{Result, ok, err, key_error, index, first, ◌>>=◌}
use mahjong_server_bot_zoo.Tiles.{Tile, feng, section_index, tile_le}
use mahjong_server_bot_zoo.State.{
  MeldType, Meld, FanEntry, WinType, self_draw, robbed_kong, last_tile,
}
use mahjong_server_bot_zoo.Rules.Inputs.{Config, Pack, PackKind, FanQuery, FanLine, Env}

abbrev pub mcr_fan_cliff : ℕ
mcr_fan_cliff = 8

-- Exposed melds are offered by this one non-zero number.
abbrev pub exposed_offer : ℕ
exposed_offer = 1

-- `_WIND_INDEX[tile]`
unfoldable pub wind_index : Tile → Result ℕ
wind_index t =
    if eqb (section_index t.section) (section_index feng)
    then (if eqb t.rank 1
        then ok 0
        else if eqb t.rank 2
        then ok 1
        else if eqb t.rank 3
        then ok 2
        else if eqb t.rank 4
        then ok 3
        else err key_error)
    else err key_error

abbrev pub pack_kind : MeldType → PackKind
pack_kind MeldType.chi = PackKind.chi
pack_kind MeldType.peng = PackKind.peng
pack_kind _ = PackKind.gang

abbrev pub offer_of : MeldType → ℕ
offer_of MeldType.gang_concealed = 0
offer_of _ = exposed_offer

-- The tile that names a meld: the middle one of a run, else the claimed tile or the first.
abbrev pub pack_tile : MeldType → Meld → Result Tile
pack_tile MeldType.chi m = index (sort tile_le m.tiles) 1
pack_tile _ m = elim m.called_tile [ some t ↦ ok t | none ↦ first m.tiles ]

unfoldable pub melds_to_pack : List Meld → Result (List Pack)
melds_to_pack [] = ok []
melds_to_pack (m ∷ ms) = pack_tile m.kind m >>= λ t. melds_to_pack ms >>= λ rest.
    ok (record { kind = pack_kind m.kind; tile = t; offer = offer_of m.kind } ∷ rest)

abbrev pub fan_entry : FanLine → FanEntry
fan_entry l = record { name = l.name_en; value = l.fan_point * l.cnt }

-- What counts towards the fan floor: all but flowers.
abbrev pub floor_total : List FanEntry → ℕ
floor_total [] = 0
floor_total (f ∷ fs) = (if str_eq f.name "Flower Tiles" then 0 else f.value) + floor_total fs

abbrev pub fan_sum : List FanEntry → ℕ
fan_sum [] = 0
fan_sum (f ∷ fs) = f.value + fan_sum fs

abbrev pub is_self_draw : WinType → Bool
is_self_draw self_draw = true
is_self_draw _ = false

abbrev pub is_robbed_kong : WinType → Bool
is_robbed_kong robbed_kong = true
is_robbed_kong _ = false

abbrev pub is_last_tile : WinType → Bool
is_last_tile last_tile = true
is_last_tile _ = false

abbrev pub cliff_of : Config → ℕ
cliff_of config = elim config.fan_cliff [ none ↦ mcr_fan_cliff | some c ↦ c ]

-- The list below the cliff is empty.
unfoldable pub clear_cliff : ℕ → List FanEntry → List FanEntry
clear_cliff cliff fans = if ltb (floor_total fans) cliff then [] else fans

-- The answer of the calculator: its TypeError means that the hand is no win.
unfoldable pub qualified : Config → Option (List FanLine) → List FanEntry
unfolding clear_cliff
qualified config none = []
qualified config (some lines) = clear_cliff (cliff_of config) (map fan_entry lines)

module _ (env : Env) where
  unfoldable pub calculate_fan :
      List Tile → List Meld → Tile → WinType → Tile → Tile → Config → ℕ → Result (List FanEntry)
  calculate_fan hand melds win_tile win_type seat_wind round_wind config flower_count = do
    pack ← melds_to_pack melds
    seat_idx ← wind_index seat_wind
    prevalent_idx ← wind_index round_wind
    let query : FanQuery = record {
      pack = pack;
      hand = hand;
      win_tile = win_tile;
      flower_count = flower_count;
      is_self_drawn = is_self_draw win_type;
      is_fourth_tile = false;
      is_about_kong = is_robbed_kong win_type;
      is_wall_last = is_last_tile win_type;
      seat_wind = seat_idx;
      prevalent_wind = prevalent_idx;
    }
    ok (qualified config (env.fan_calculator query))
