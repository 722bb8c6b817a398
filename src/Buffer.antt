-- ===== src/Buffer.antt =====
-- atomic/buffer.rs: `AtomicBuffer`, a bounded ring with a sequence number in every slot. `Machine`
-- is its operations one shared access at a time, `Ring` the arithmetic of positions, `Queue`
-- what a thread alone does to the queue that the ring stands for.
pub mod Machine
pub mod Ring
pub mod Queue
pub mod Pop
pub mod Fresh
mod Tests
