-- ===== src/Deal.antt =====
-- mahjong/engine/state.py: dealing a hand.
mod Defs
pub mod Draws
pub mod Fresh
unfoldable pub use Defs.*
