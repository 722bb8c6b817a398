-- ===== src/Cell.antt =====
-- atomic/cell.rs: `AtomicCell`, a value behind a `SerialMutex`, whose clones share it by a count.
-- `Calls` is the methods that work on the value, and `Linear` what holds of them in every
-- interleaving.
pub mod Calls
pub mod Linear
mod Tests
