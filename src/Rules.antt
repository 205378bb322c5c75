-- ===== src/Rules.antt =====
-- The rules that the engine consults: mahjong/engine/rulesets/, mahjong/engine/pymj.py and
-- mahjong/engine/scoring.py. What the source reads from outside is the record `Env`.
mod Inputs
mod Load
mod Pymj
mod Waits
pub mod Scoring
pub use Inputs.*
unfoldable pub use Load.*
unfoldable pub use Pymj.*
unfoldable pub use Waits.*
