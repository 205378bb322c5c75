-- ===== src/Records.antt =====
-- mahjong/records/: the record of a hand. diff.py turns an applied action into record events, and
-- replay.py turns the events back into the states of the hand.
pub mod Events
mod Defs
pub mod Outcome
pub mod Writing
pub mod Roundtrip
pub mod History
unfoldable pub use Defs.*
