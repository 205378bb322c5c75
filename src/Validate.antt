-- ===== src/Validate.antt =====
-- The runtime check of mahjong/engine/types.py.
mod Defs
pub mod Sound
unfoldable pub use Defs.*
