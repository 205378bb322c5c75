-- ===== src/State.antt =====
-- mahjong/engine/types.py: actions, melds, seats and the game state. Seats are numbers from 0;
-- scores are signed; the key `ruleset` is the field `rules` and `terminal` is `outcome`; every other Python `int` here is never negative.
use Prim.Native.String.{String}
use mahjong_server_bot_zoo.Prelude.{
  ℕ, ◌≡◌, ◌↔◌, Bool, true, false, ◌&&◌, Option, List, [], ◌∷◌, arith, Eq,
}
use mahjong_server_bot_zoo.Prelude.Int.{ℤ}
use mahjong_server_bot_zoo.Tiles.{Tile, tile_beq, tile_beq_iff}

pub record RuleSetRef : Type 0 where
  pub id : String
  pub version : ℕ
  pub config_hash : Option String

pub data GangKind : Type 0 where
  exposed concealed added : GangKind

pub data Action : Type 0 where
  pass hu : Action
  play peng : Tile → Action
  chi : List Tile → Action
  gang : Tile → GangKind → Action

pub data MeldType : Type 0 where
  peng chi gang_concealed gang_exposed gang_added : MeldType

pub record Meld : Type 0 where
  pub kind : MeldType
  pub tiles : List Tile
  pub called_tile : Option Tile
  pub called_from_seat : ℕ

pub record Seat : Type 0 where
  pub seat : ℕ
  pub seat_wind : Tile
  pub concealed : List Tile
  pub melds : List Meld
  pub discards : List Tile
  pub flowers : List Tile
  pub score : ℤ

pub record Wall : Type 0 where
  pub remaining : List Tile
  pub drawn_count : ℕ
  pub total : ℕ

pub record LastDiscard : Type 0 where
  pub tile : Tile
  pub seat : ℕ
  pub turn_index : ℕ

pub record LastDrawn : Type 0 where
  pub seat : ℕ
  pub tile : Tile

pub data ClaimType : Type 0 where
  hu peng gang chi : ClaimType

pub record PendingClaim : Type 0 where
  pub seat : ℕ
  pub claim : ClaimType
  pub chi_tiles : Option (List Tile)

pub data WinType : Type 0 where
  self_draw discard robbed_kong last_tile : WinType

pub data TerminalKind : Type 0 where
  hu draw : TerminalKind

pub record FanEntry : Type 0 where
  pub name : String
  pub value : ℕ

pub record Terminal : Type 0 where
  pub kind : TerminalKind
  pub winner : Option ℕ
  pub win_tile : Option Tile
  pub win_type : Option WinType
  pub deal_in_seat : Option ℕ
  pub fan : List FanEntry
  pub fan_total : ℕ
  pub score_delta : List ℤ

pub record RngState : Type 0 where
  pub seed : ℕ
  pub cursor : ℕ

pub data Phase : Type 0 where
  deal draw discard claim_window terminal : Phase

pub record GameState : Type 0 where
  pub rules : RuleSetRef
  pub round_wind : Tile
  pub dealer_seat : ℕ
  pub hand_index : ℕ
  pub turn_index : ℕ
  pub wall : Wall
  pub seats : List Seat
  pub last_discard : Option LastDiscard
  pub last_drawn : Option LastDrawn
  pub pending_claims : List PendingClaim
  pub phase : Phase
  pub current_actor : ℕ
  pub outcome : Option Terminal
  pub rng : RngState

-- `==` on the dicts that stand for actions.
abbrev pub tiles_beq : List Tile → List Tile → Bool
tiles_beq [] [] = true
tiles_beq (x ∷ xs) (y ∷ ys) = tile_beq x y && tiles_beq xs ys
tiles_beq _ _ = false

tiles_beq_iff : (xs ys : List Tile) → (tiles_beq xs ys ≡ true) ↔ (xs ≡ ys)
tiles_beq_iff [] [] = ground arith
tiles_beq_iff [] (y ∷ ys) = ground arith
tiles_beq_iff (x ∷ xs) [] = ground arith
tiles_beq_iff (x ∷ xs) (y ∷ ys) = ground (arith, tile_beq_iff x y, tiles_beq_iff xs ys)

abbrev pub kind_beq : GangKind → GangKind → Bool
kind_beq exposed exposed = true
kind_beq concealed concealed = true
kind_beq added added = true
kind_beq _ _ = false

abbrev pub action_beq : Action → Action → Bool
action_beq Action.pass Action.pass = true
action_beq Action.hu Action.hu = true
action_beq (Action.play s) (Action.play t) = tile_beq s t
action_beq (Action.peng s) (Action.peng t) = tile_beq s t
action_beq (Action.chi s) (Action.chi t) = tiles_beq s t
action_beq (Action.gang s j) (Action.gang t k) = tile_beq s t && kind_beq j k
action_beq _ _ = false

pub action_beq_iff : (a b : Action) → (action_beq a b ≡ true) ↔ (a ≡ b)
action_beq_iff (Action.play s) (Action.play t) = ground (arith, tile_beq_iff s t)
action_beq_iff (Action.peng s) (Action.peng t) = ground (arith, tile_beq_iff s t)
action_beq_iff (Action.chi s) (Action.chi t) = ground (arith, tiles_beq_iff s t)
action_beq_iff (Action.gang s j) (Action.gang t k) = ground (arith, tile_beq_iff s t)
action_beq_iff a b = ground arith

instance abbrev pub action_eq : Eq Action
action_eq = record { beq = action_beq; beq_iff = action_beq_iff }
