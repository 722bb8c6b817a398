-- ===== src/Mpmc.antt =====
-- channels/mpmc.rs with core/scondvar.rs: `Mpmc`, a channel over an `AtomicVec`. `Channel` is its calls,
-- `Messages` the same calls on a list, `Steps` and `Refinement` the proof.
pub mod Channel
pub mod Messages
pub mod Steps
pub mod Refinement
mod Tests
