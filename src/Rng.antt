-- ===== src/Rng.antt =====
-- mahjong/engine/rng.py: the SHA-256 counter generator, uniform sampling by rejection, and the
-- shuffle of the wall. Seeds and cursors are naturals; a loop whose fuel runs out says so.
mod Defs
pub mod Shuffle
unfoldable pub use Defs.*
