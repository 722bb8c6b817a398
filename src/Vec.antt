-- ===== src/Vec.antt =====
-- atomic/vec.rs: `AtomicVec`, a queue in linked blocks of 31 values. `Memory` is blocks and pointers,
-- `Ends` push and pop, `Create` the constructors, `Calls`, `Access` and `Scan` the rest, `Rep` the list
-- that the blocks stand for. The other modules but `Api`, sequences of calls, are the proofs.
pub mod Memory
pub mod Ends
pub mod Rep
pub mod Frame
pub mod Grow
pub mod Push
pub mod Pop
pub mod Reclaim
pub mod Calls
pub mod Queue
pub mod Batch
pub mod Access
pub mod At
pub mod Swap
pub mod Scan
pub mod Visits
pub mod Found
pub mod Reset
pub mod Create
pub mod Api
pub mod Refinement
mod Tests
