-- ===== src/Counts.antt =====
-- core/mod.rs, atomic/cell.rs and sync/rw_lock.rs: the count of the handles that share an allocation.
-- `Machine` is the operations on a handle one access at a time, `Moves` what one access does to the
-- count, and `Freed` what follows for the allocation.
pub mod Machine
pub mod Moves
pub mod Freed
mod Tests
