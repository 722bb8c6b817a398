-- ===== src/RawMutex/Tests.antt =====
-- core/mutex.rs: runs of the lock at concrete schedules, and the theorems at inputs that meet
-- their hypotheses.
use crossync.Prelude.{
  ℕ, ◌+◌, ◌<◌, ◌≡◌, ◌≢◌, ◌⊎◌, ◌↔◌, refl, arith, List, [], ◌∷◌, ◌++◌, true, false, sum_by, replicate,
}
use crossync.Threads.{run, solo}
use crossync.RawMutex.Word.{
  one_writer, readers_count, is_writer_locked, is_locked_shared, writers_parked, holder_bits,
}
use crossync.RawMutex.Machine.{
  new, Op, lock_exclusive, lock_shared, unlock, stay, Choice, idle, exclusive, exclusive_wait, call,
  exclusive_slow, shared_slow, shared_wait, unlock_slow, move,
}
use crossync.RawMutex.Ownership.{reads, writes, start, mutual_exclusion, queries_exact}
use crossync.RawMutex.Sleep.{wakes, writer_no_lost_wakeup}
use crossync.RawMutex.Progress.{alone, exclusive_progress}

abbrev asks : Op → Choice
asks o = record { op = o; spurious = false; completed = true }

-- Thread 0 takes the lock, and thread 1 parks behind it.
abbrev contended : List (ℕ × Choice)
contended =
    (0, asks lock_exclusive)
    ∷ (0, asks stay)
    ∷ (1, asks lock_exclusive)
    ∷ replicate 5 (1, asks stay)

-- Two readers share the lock.
abbrev two_readers : List (ℕ × Choice)
two_readers =
    (0, asks lock_shared)
    ∷ (0, asks stay)
    ∷ (0, asks stay)
    ∷ (1, asks lock_shared)
    ∷ (1, asks stay)
    ∷ (1, asks stay)
    ∷ []

contended_result : run move contended (start 2) ≡ record {
  mem = record { state = one_writer + 2; readers_futex = 0; writers_futex = 0 };
  threads = exclusive ∷ exclusive_wait 0 ∷ [];
}
unfolding move call exclusive_slow
contended_result = refl

-- The writer gives up, and the parked thread takes the lock and clears the flag.
handover_result :
    run move (contended ++ replicate 5 (0, asks unlock) ++ replicate 5 (1, asks stay)) (start 2)
    ≡ record {
      mem = record { state = one_writer; readers_futex = 0; writers_futex = 1 };
      threads = idle ∷ exclusive ∷ [];
    }
unfolding move call exclusive_slow unlock_slow
handover_result = refl

mutual_exclusion_example : ◌≡◌ {A = ℕ} 0 0
unfolding move call exclusive_slow
mutual_exclusion_example =
    mutual_exclusion 2 contended 0 0 exclusive exclusive refl refl refl (omega arith)

queries_exact_example :
    let s = run move two_readers (start 2) in
    (readers_count s.mem.state ≡ sum_by reads s.threads)
    × ((is_writer_locked s.mem.state ≡ true) ↔ (sum_by writes s.threads ≡ 1))
    × ((is_locked_shared s.mem.state ≡ true) ↔ (0 < sum_by reads s.threads))
queries_exact_example = queries_exact 2 two_readers

exclusive_progress_example :
    (solo move 5 alone (record new { state = 2 }, exclusive_wait 7)).1 ≡ exclusive
exclusive_progress_example =
    exclusive_progress (record new { state = 2 }) (exclusive_wait 7) refl refl

writer_no_lost_wakeup_example :
    let z = run move contended (start 2) in
    ((writers_parked z.mem.state ≡ true) × (holder_bits z.mem.state ≢ 0))
    ⊎ (0 < sum_by wakes z.threads)
unfolding move call exclusive_slow
writer_no_lost_wakeup_example = writer_no_lost_wakeup 2 contended 1 0 (omega arith) refl refl

-- A reader sets its flag behind a writer, which releases the lock and clears the flag, before the
-- reader looks at the futex; behind the next writer it waits without a flag, and that writer's release
-- wakes nobody.
abbrev forgotten_reader : List (ℕ × Choice)
forgotten_reader =
    (0, asks lock_exclusive) ∷ (0, asks stay) ∷ (1, asks lock_shared) ∷ replicate 3 (1, asks stay)
    ++ ((0, asks unlock) ∷ replicate 4 (0, asks stay))
    ++ ((0, asks lock_exclusive) ∷ (0, asks stay) ∷ replicate 2 (1, asks stay))
    ++ ((0, asks unlock) ∷ (0, asks stay) ∷ [])

forgotten_reader_result : run move forgotten_reader (start 2) ≡ record {
  mem = record { state = 0; readers_futex = 1; writers_futex = 0 };
  threads = idle ∷ shared_wait 1 ∷ [];
}
unfolding move call shared_slow unlock_slow
forgotten_reader_result = refl
