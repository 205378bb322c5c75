-- ===== src/RateLimit.antt =====
-- mahjong/server/ratelimit.py: the sliding window of a rate limit, for each key.
mod Defs
pub mod Pruning
pub mod Keys
pub mod Window
pub mod Agreement
pub mod Run
pub mod Bounds
unfoldable pub use Defs.*
