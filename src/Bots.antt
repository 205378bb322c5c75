-- ===== src/Bots.antt =====
-- The policy of mahjong/bots/v0.py.
mod Defs
pub mod Choosing
pub mod Measured
pub mod Discarding
pub mod Reaching
pub mod Claiming
pub mod Deciding
unfoldable pub use Defs.*
