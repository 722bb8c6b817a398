-- ===== src/RwLock.antt =====
-- sync/rw_lock.rs: `RwLock`, a value behind a `RawMutex`, whose clones share it by a count. `Calls` is
-- its methods as calls of threads, and `Linear` what holds of them in every interleaving.
pub mod Calls
pub mod Linear
mod Tests
