-- ===== src/Atomic.antt =====
-- atomic/atomic.rs: `Atomic`, a value of any type behind a `SerialMutex`. `Ops` is what each method
-- does to the value under its guard, `Kinds` the methods for booleans, vectors and options, `Calls`
-- the methods as calls of threads, `Linear` and `Counter` what holds in every interleaving, and
-- `Laws` how the methods relate.
pub mod Ops
pub mod Kinds
pub mod Calls
pub mod Linear
pub mod Counter
pub mod Laws
mod Tests
