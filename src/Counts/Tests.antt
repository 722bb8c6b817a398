-- ===== src/Counts/Tests.antt =====
-- core/mod.rs, atomic/cell.rs and sync/rw_lock.rs: two threads with a handle each, and the theorems
-- there.
use crossync.Prelude.{ℕ, ◌+◌, ◌≤◌, ◌≡◌, refl, arith, false, List, [], ◌∷◌, ◌++◌, replicate, sum_by}
use crossync.Threads.{run}
use crossync.Counts.Machine.{
  CountOp, clone, drop, into_inner, send, receive, stay, rest, count_call, count_step, count_move,
}
use crossync.Counts.Moves.{handles, destroys}
use crossync.Counts.Freed.{count_start, handle_alive, freed_once}

-- Thread 0 clones and sends the clone to thread 1, which drops it; thread 0 unwraps the value.
abbrev shared_handle : List (ℕ × CountOp)
shared_handle =
    (0, clone)
    ∷ (0, stay)
    ∷ (0, stay)
    ∷ (0, send)
    ∷ (1, receive)
    ∷ (1, drop)
    ∷ replicate 1 (1, stay)

abbrev unwrapped : List (ℕ × CountOp)
unwrapped = shared_handle ++ ((0, into_inner) ∷ replicate 2 (0, stay))

unwrapped_result : run count_move unwrapped (count_start 1) ≡ record {
  mem = record { ref_count = 1; in_transit = 0; freed = 1; aborted = false };
  threads = rest 0 ∷ rest 0 ∷ [];
}
unfolding count_move count_step count_call
unwrapped_result = refl

handle_alive_example : ◌≡◌ {A = ℕ} 0 0 × ◌≡◌ {A = ℕ} 1 1
unfolding count_move count_step count_call
handle_alive_example = handle_alive 1 (omega arith) shared_handle 0 (rest 1) refl (omega arith)

freed_once_example :
    let z = run count_move unwrapped (count_start 1) in
    (z.mem.freed ≤ 1)
    × (sum_by handles z.threads + sum_by destroys z.threads + z.mem.in_transit ≡ 0
        → z.mem.freed ≡ 1)
freed_once_example = freed_once 1 (omega arith) unwrapped
