-- ===== src/Bots/Defs.antt =====
-- mahjong/bots/v0.py.
mod Measures
mod Policy
unfoldable pub use Measures.*
unfoldable pub use Policy.*
