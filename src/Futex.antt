-- ===== src/Futex.antt =====
-- core/futex/mod.rs: the threads that wait on a futex, as its functions document them. A waiting thread
-- returns when it is woken, or without cause; which of them is woken is left to the schedule.
use crossync.Prelude.{ℕ, ◌+◌, ◌-◌, Bool, true, false, ◌==◌, if◌then◌else◌}

-- The threads that are not woken yet, and those that are woken and have not returned.
pub record WaitQueue : Type 0 where
  pub waiting : ℕ
  pub woken : ℕ

-- A thread begins to wait, in the moment in which the word has the expected value.
abbrev pub futex_sleep : WaitQueue → WaitQueue
futex_sleep q = record q { waiting = q.waiting + 1 }

abbrev pub futex_wake : WaitQueue → WaitQueue
futex_wake q = if q.waiting == 0 then q else record { waiting = q.waiting - 1; woken = q.woken + 1 }

abbrev pub futex_wake_all : WaitQueue → WaitQueue
futex_wake_all q = record { waiting = 0; woken = q.woken + q.waiting }

-- Whether a waiting thread can return, by a wake or without cause, and the queue without it.
abbrev pub can_return : Bool → WaitQueue → Bool
can_return spurious q =
    if spurious
    then (if q.waiting == 0 then false else true)
    else if q.woken == 0
    then false
    else true

abbrev pub futex_return : Bool → WaitQueue → WaitQueue
futex_return true q = record q { waiting = q.waiting - 1 }
futex_return false q = record q { woken = q.woken - 1 }
