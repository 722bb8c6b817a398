-- ===== src/SerialMutex/Tests.antt =====
-- core/serial.rs: acquisitions at concrete schedules, and the theorems there.
use crossync.Prelude.{
  ℕ, ◌+◌, ◌^◌, ◌<◌, ◌≡◌, refl, arith, List, [], ◌∷◌, ◌++◌, true, false, replicate, All, ◌⊎◌, sum_by,
}
use crossync.Threads.{run}
use crossync.SerialMutex.Machine.{
  SerialOp, lock_read, lock_write, SerialChoice, holds, slow_wait, wait_bit, slow_branch,
  serial_call, serial_step, serial_move,
}
use crossync.SerialMutex.Exclusion.{serial_start, serial_write_exclusion}
use crossync.SerialMutex.Owner.{share_of}
use crossync.SerialMutex.Wakeups.{notifies, wakes}
use crossync.SerialMutex.Progress.{serial_no_lost_wakeup}

abbrev serial_asks : SerialOp → SerialChoice
serial_asks o = record { op = o; spurious = false; completed = true }

-- Two acquisitions of thread 1, and one of thread 2.
abbrev owners : List ℕ
owners = 1 ∷ 1 ∷ 2 ∷ []

abbrev owners_ids : All (λ o. 0 < o) owners
owners_ids = (omega arith, (omega arith, (omega arith, tt)))

-- Thread 1 reads twice, and thread 2 parks behind it.
abbrev nested_reads : List (ℕ × SerialChoice)
nested_reads =
    replicate 2 (0, serial_asks lock_read)
    ++ replicate 5 (1, serial_asks lock_read)
    ++ replicate 5 (2, serial_asks lock_write)

abbrev one_write : List (ℕ × SerialChoice)
one_write = replicate 2 (2, serial_asks lock_write)

nested_reads_result : run serial_move nested_reads (serial_start owners) ≡ record {
  mem = record { state = 2 ^ 32 + 2 ^ 31 + 2; wake = 0; queue = record { waiting = 0; woken = 0 } };
  threads =
      record { owner = 1; stage = holds true }
      ∷ record { owner = 1; stage = holds true }
      ∷ record { owner = 2; stage = slow_wait false 0 }
      ∷ [];
}
unfolding serial_move serial_step serial_call slow_branch
nested_reads_result = refl

serial_write_exclusion_example : ◌≡◌ {A = ℕ} 2 2
unfolding serial_move serial_step serial_call slow_branch
serial_write_exclusion_example =
    serial_write_exclusion owners owners_ids one_write 2 2
      (record { owner = 2; stage = holds false }) (record { owner = 2; stage = holds false }) refl
      refl refl (omega arith)

-- Thread 1 reads, and thread 2 sleeps behind it.
abbrev asleep_behind : List (ℕ × SerialChoice)
asleep_behind = replicate 2 (0, serial_asks lock_read) ++ replicate 6 (2, serial_asks lock_write)

serial_no_lost_wakeup_example :
    let z = run serial_move asleep_behind (serial_start owners) in
    (0 < z.mem.queue.woken + sum_by notifies z.threads + sum_by wakes z.threads)
    ⊎ ((wait_bit z.mem.state ≡ true) × (o : ℕ) × (0 < o) × (0 < sum_by (share_of o) z.threads))
unfolding serial_move serial_step serial_call slow_branch
serial_no_lost_wakeup_example =
    serial_no_lost_wakeup owners asleep_behind owners_ids (omega arith) (omega arith)
