-- ===== src/Transition.antt =====
-- mahjong/engine/transition/: applying an action. The source copies the state before it changes
-- it, so a transition here is a function from the old state to the new one.
mod Defs
pub mod Invariant
pub mod Seats
pub mod Drawing
pub mod Discarding
pub mod Claimed
pub mod Removing
pub mod Claiming
pub mod Passing
pub mod Kongs
pub mod Winning
pub mod Correct
pub mod Applied
unfoldable pub use Defs.*
