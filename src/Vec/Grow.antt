-- ===== src/Vec/Grow.antt =====
-- atomic/vec.rs: a block that the tail takes from the pool or from the allocator, and its link.
mod Lists
mod Acquire
mod Link
pub use Lists.*
pub use Acquire.*
unfoldable pub use Link.*
