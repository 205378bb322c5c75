-- ===== src/Rules/Inputs.antt =====
-- Ruleset configs (mahjong/engine/rulesets/*.json) and what the engine takes from outside: the
-- files on disk, the hash of a config, SHA-256, and the fan calculator of the MahjongGB package.
use Prim.Native.String.{String}
use mahjong_server_bot_zoo.Prelude.{ℕ, Bool, Option, List}
use mahjong_server_bot_zoo.Prelude.Int.{ℤ}
use mahjong_server_bot_zoo.Tiles.{Tile}

-- The `conversion` block; an absent key is `none`.
pub record Conversion : Type 0 where
  pub scheme : Option String
  pub tiers : Option (List (ℕ × ℕ))
  pub base_each : Option ℕ
  pub base_dealer_in : Option ℕ
  pub base_other : Option ℕ
  pub each_mult : Option ℕ
  pub dealer_in_mult : Option ℕ
  pub other_mult : Option ℕ

pub record Config : Type 0 where
  pub id : String
  pub fan_cliff : Option ℕ
  pub dealer_repeat_on_win : Bool
  pub conversion : Option Conversion

-- The calls of MahjongFanCalculator.
pub data PackKind : Type 0 where
  chi peng gang : PackKind

pub record Pack : Type 0 where
  pub kind : PackKind
  pub tile : Tile
  pub offer : ℕ

pub record FanQuery : Type 0 where
  pub pack : List Pack
  pub hand : List Tile
  pub win_tile : Tile
  pub flower_count : ℕ
  pub is_self_drawn : Bool
  pub is_fourth_tile : Bool
  pub is_about_kong : Bool
  pub is_wall_last : Bool
  pub seat_wind : ℕ
  pub prevalent_wind : ℕ

-- One line of the calculator's answer.
pub record FanLine : Type 0 where
  pub fan_point : ℕ
  pub cnt : ℕ
  pub name_en : String

-- `fan_calculator q` is `none` where the package raises TypeError; `read_config i` is `none`
-- where there is no file for the ruleset `i`.
pub record Env : Type 0 where
  pub fan_calculator : FanQuery → Option (List FanLine)
  pub read_config : String → Option Config
  pub shanten : List Pack → List Tile → Option ℤ
  pub config_hash : Config → String
  pub sha256 : List ℕ → List ℕ
