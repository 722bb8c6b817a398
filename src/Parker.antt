-- ===== src/Parker.antt =====
-- core/thread.rs: `ThreadParker`, with whose tokens threads wait for each other. `Machine` is park and
-- unpark one access at a time, `Moves` what one access does to the tokens, and `Wakeups` that no
-- token is lost and no wakeup either.
pub mod Machine
pub mod Moves
pub mod Wakeups
mod Tests
