-- ===== src/SpinCell.antt =====
-- lock_free/splcell.rs: `SpinCell`, a reader-writer spin lock. Its word has the layout of
-- core/mutex.rs, which `RawMutex.Word` models. `Machine` is its operations one shared access at a
-- time, `Ownership` what the word says of the threads, `Flags` what its parked flags stand for.
pub mod Machine
pub mod Ownership
pub mod Flags
mod Tests
