-- ===== src/Tests.antt =====
-- Runs of the model at concrete inputs.
pub mod Samples
mod Runs
mod Deals
mod Hands
mod Limits
mod Bots
