-- ===== src/CondVar/Tests.antt =====
-- core/scondvar.rs: a waiter that sleeps and a notification that has added its token, and the theorem
-- there.
use crossync.Prelude.{ℕ, ◌+◌, ◌<◌, ◌≡◌, refl, arith, false, List, [], ◌∷◌, ◌++◌, replicate, sum_by}
use crossync.Threads.{run}
use crossync.CondVar.Machine.{
  CondOp, wait, notify_one, stay, CondChoice, asleep, one_bump, cond_call, cond_step, cond_move,
}
use crossync.CondVar.Moves.{active, adds_one, adds_all, wakes_all}
use crossync.CondVar.Wakeups.{cond_start, cond_no_lost_wakeup}

abbrev asks : CondOp → CondChoice
asks o = record { op = o; spurious = false }

abbrev notified : List (ℕ × CondChoice)
notified =
    (0, asks wait) ∷ replicate 6 (0, asks stay)
    ++ ((1, asks notify_one) ∷ replicate 2 (1, asks stay))

notified_result : run cond_move notified (cond_start 2) ≡ record {
  mem = record { futex = 0; waiters = 1; to_wake = 1; queue = record { waiting = 1; woken = 0 } };
  threads = record { stage = asleep; bumps = 0 } ∷ record { stage = one_bump; bumps = 0 } ∷ [];
}
unfolding cond_step cond_call
notified_result = refl

cond_no_lost_wakeup_example :
    let z = run cond_move notified (cond_start 2) in
    0
    < z.mem.queue.woken
      + sum_by active z.threads
      + sum_by adds_one z.threads
      + sum_by adds_all z.threads
      + sum_by wakes_all z.threads
unfolding cond_step cond_call
cond_no_lost_wakeup_example =
    cond_no_lost_wakeup 2 notified (omega arith) (omega arith) (omega arith)
