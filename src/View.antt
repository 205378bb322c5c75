-- ===== src/View.antt =====
-- `project` of mahjong/engine/state.py: what one seat, or a spectator, gets to see.
mod Defs
pub mod Hidden
pub mod Events
unfoldable pub use Defs.*
