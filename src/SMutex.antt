-- ===== src/SMutex.antt =====
-- core/smutex.rs: `SMutex`, a recursive lock for one owner or a group. `Machine` is its operations one
-- shared access at a time, `Moves` what one access does, `Invariant` what every schedule keeps, and
-- `Exclusion` the proofs.
pub mod Machine
pub mod Moves
pub mod Invariant
pub mod Exclusion
mod Tests
