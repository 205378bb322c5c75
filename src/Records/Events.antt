-- ===== src/Records/Events.antt =====
-- The events that mahjong/records/diff.py and mahjong/table/manager.py write. A dict is a record,
-- and a key that may be missing is an option. Left out are the time stamps, `seq`, the server's
-- data, and of HAND_END and FOOTER the statistics and the hash, which no code here reads back.
use mahjong_server_bot_zoo.Prelude.{ℕ, Option, List, Bool}
use mahjong_server_bot_zoo.Prelude.Int.{ℤ}
use mahjong_server_bot_zoo.Tiles.{Tile}
use mahjong_server_bot_zoo.State.{
  Action, GangKind, Phase, GameState, RuleSetRef, TerminalKind, WinType, FanEntry,
}
use mahjong_server_bot_zoo.View.{FinalHand}

-- `action["type"]`
pub data ActionType : Type 0 where
  play pass peng chi gang hu : ActionType

abbrev pub type_of : Action → ActionType
type_of (Action.play t) = ActionType.play
type_of Action.pass = ActionType.pass
type_of (Action.peng t) = ActionType.peng
type_of (Action.chi ts) = ActionType.chi
type_of (Action.gang t kind) = ActionType.gang
type_of Action.hu = ActionType.hu

pub record Stamp : Type 0 where
  pub turn_index : ℕ
  pub phase : Phase

abbrev pub stamp_of : GameState → Stamp
stamp_of s = record { turn_index = s.turn_index; phase = s.phase }

pub record Decision : Type 0 where
  pub seat : ℕ
  pub decision : ActionType
  pub chi_tiles : Option (List Tile)
  pub tile : Option Tile
  pub kind : Option GangKind

pub record Resolution : Type 0 where
  pub winning_seat : ℕ
  pub winning_claim : ActionType
  pub winning_chi_tiles : Option (List Tile)
  pub called_tile : Option Tile
  pub winning_kind : Option GangKind

pub data Offered : Type 0 where
  offered_tile : Tile → Offered
  offered_run : List Tile → Offered

pub record Opportunity : Type 0 where
  pub seat : ℕ
  pub claim : ActionType
  pub offered : Offered

pub record HandEnd : Type 0 where
  pub kind : TerminalKind
  pub winner : List ℕ
  pub win_tile : Option Tile
  pub win_type : Option WinType
  pub deal_in_seat : Option ℕ
  pub fan : List FanEntry
  pub fan_total : ℕ
  pub score_delta : List ℤ
  pub final_hands : List FinalHand

pub record HeaderSeat : Type 0 where
  pub seat : ℕ
  pub wind : Option Tile

-- The seed is written as a decimal string and read back as the number.
pub record Header : Type 0 where
  pub rules : RuleSetRef
  pub seed : ℕ
  pub hand_index_in_match : ℕ
  pub seats : List HeaderSeat

-- The two outcomes of CLAIM_RESOLUTION are the events `passed` and `claimed`.
pub data RecordEvent : Type 0 where
  header : Header → RecordEvent
  deal : RecordEvent
  discard : Stamp → ℕ → Tile → (from_hand : Bool) → RecordEvent
  claim_decision : Stamp → Decision → RecordEvent
  claim_window : Stamp → List Opportunity → RecordEvent
  passed : Stamp → RecordEvent
  claimed : Stamp → Resolution → RecordEvent
  draw : Stamp → ℕ → Option Tile → RecordEvent
  hand_end : Stamp → HandEnd → RecordEvent
  footer : Stamp → (rng_cursor_final : ℕ) → RecordEvent
