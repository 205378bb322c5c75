-- ===== src/Claims.antt =====
-- mahjong/table/manager.py: the choice between the claims on one discard.
mod Defs
pub mod Priority
pub mod Default
unfoldable pub use Defs.*
