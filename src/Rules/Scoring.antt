-- ===== src/Rules/Scoring.antt =====
-- mahjong/engine/scoring.py: from fan to the change of each seat's score.
mod Defs
pub mod ZeroSum
unfoldable pub use Defs.*
