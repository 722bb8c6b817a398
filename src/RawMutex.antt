-- ===== src/RawMutex.antt =====
-- core/mutex.rs: the reader-writer lock under every container. `Word` is the bit layout of its
-- state, `Machine` its operations one shared access at a time, `Ownership` what the word says
-- of the threads that hold it, `Progress` what a thread alone achieves,
-- `Sleep` that a writer's wakeup is not lost, `Guards` the lock as guards use it.
pub mod Word
pub mod Machine
pub mod Ownership
pub mod Parked
pub mod Progress
pub mod Sleep
pub mod Guards
mod Tests
