-- ===== src/Legality.antt =====
-- mahjong/engine/legality/: what a seat may submit. `legal_actions` chooses by the phase.
mod Defs
pub mod Total
pub mod Candidates
pub mod Waits
pub mod Listed
pub mod Justified
unfoldable pub use Defs.*
