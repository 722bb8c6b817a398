-- ===== src/CondVar.antt =====
-- core/scondvar.rs: `SCondVar`, whose waiters take tokens. `Machine` is wait, notify_one and notify_all
-- one access at a time, `Moves` what one access does to the tokens, and `Wakeups` that no wakeup is
-- lost.
pub mod Machine
pub mod Moves
pub mod Wakeups
mod Tests
