-- ===== src/Watch.antt =====
-- sync/guard_lock.rs, sync/watch_guard_ref.rs and sync/watch_guard_mut.rs: the guards that containers
-- return. `Guards` is how they are made, cast and dropped, and `Releases` what a drop gives back.
pub mod Guards
pub mod Releases
