-- ===== src/SMutex/Tests.antt =====
-- core/smutex.rs: an owner that locks twice while another thread waits, and the theorems there.
use crossync.Prelude.{ℕ, ◌≡◌, refl, true, false, List, [], ◌∷◌, ◌++◌, replicate}
use crossync.Threads.{run}
use crossync.SMutex.Machine.{
  SOp, lock, lock_group, stay, SChoice, STask, rest, group_wait, smutex_call, smutex_step,
  smutex_move,
}
use crossync.SMutex.Invariant.{smutex_start}

abbrev asks : SOp → SChoice
asks o = record { op = o; is_group = false; spurious = false; yielding = true; woken = false }

abbrev pair : List STask
pair = record { id = 7; stage = rest false 0 } ∷ record { id = 9; stage = rest false 0 } ∷ []

-- Thread 0 locks, and locks again; thread 1 waits for a group.
abbrev nested_lock : List (ℕ × SChoice)
nested_lock =
    (0, asks lock) ∷ replicate 4 (0, asks stay)
    ++ ((0, asks lock) ∷ replicate 2 (0, asks stay)
        ++ ((1, asks lock_group) ∷ replicate 5 (1, asks stay)))

nested_lock_result : run smutex_move nested_lock (smutex_start pair) ≡ record {
  mem = record { state = 1; owner = 7; recursion = 2 };
  threads = record { id = 7; stage = rest true 2 } ∷ record { id = 9; stage = group_wait 0 } ∷ [];
}
unfolding smutex_step smutex_call
nested_lock_result = refl
