-- ===== src/Array.antt =====
-- atomic/array.rs: `AtomicArray`, a bounded array that only grows. `Machine` is push and get one
-- shared access at a time with the values of the slots, `Slots` the proofs. `Storage` is every call
-- with the lock that pins the storage, `Pins`, `Places`, `Pinned` and `Bounds` the proofs.
pub mod Machine
pub mod Slots
pub mod Storage
pub mod Pins
pub mod Places
pub mod Pinned
pub mod Bounds
mod Tests
