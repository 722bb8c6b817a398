-- ===== src/Guarded.antt =====
-- Values behind a lock, as `Atomic`, `AtomicCell` and `RwLock` keep them: a call takes a guard,
-- applies a closure to the value and drops the guard. `Lock` is what a lock promises, `Machine` the
-- calls one access at a time, `History` a sequential account of calls, `Linear` that every
-- interleaving has one, and `Totals` sums over the calls of all threads.
pub mod Lock
pub mod Machine
pub mod History
pub mod Linear
pub mod Totals
