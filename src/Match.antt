-- ===== src/Match.antt =====
-- mahjong/table/match_score.py and mahjong/table/rotation.py: what is carried from hand to hand.
mod Defs
pub mod Running
pub mod Dealing
unfoldable pub use Defs.*
