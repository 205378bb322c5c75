-- ===== src/Manager.antt =====
-- `run_hand` of mahjong/table/manager.py: one hand, from the deal to its end, and its record.
mod Defs
pub mod Prompts
pub mod Playing
pub mod Turns
pub mod Gathering
pub mod Awarding
pub mod Passing
pub mod Windows
pub mod Running
pub mod Whole
unfoldable pub use Defs.*
