-- ===== src/SerialMutex.antt =====
-- core/serial.rs: `SerialMutex`, the lock of one bucket or slot, whose readers all belong to one
-- thread. `Machine` is its operations one shared access at a time, `Owner` what the word says of
-- the acquisitions, `Exclusion` what follows for two of them,
-- `Wakeups` and `Progress` that no wakeup is lost, and `Guards` the lock as guards use it.
pub mod Machine
pub mod Owner
pub mod Exclusion
pub mod Wakeups
pub mod Progress
pub mod Guards
mod Tests
