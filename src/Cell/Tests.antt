-- ===== src/Cell/Tests.antt =====
-- atomic/cell.rs: two threads that exchange the value of one cell, and the theorem there.
use crossync.Prelude.{
  ℕ, ◌≡◌, refl, false, true, ◌==◌, Option, none, some, List, [], ◌∷◌, ◌++◌, replicate, map,
}
use crossync.Threads.{run}
use crossync.SerialMutex.Machine.{
  stay, SerialChoice, slow_branch, serial_call, serial_step, serial_move,
}
use crossync.SerialMutex.Guards.{serial_lock}
use crossync.Guarded.Machine.{Calls, GuardedChoice, guarded_move}
use crossync.Cell.Calls.{CellCall, compare_exchange, exchanged, guarded, cell_calls}
use crossync.Cell.Linear.{cell_start}

abbrev lock_choice : SerialChoice
lock_choice = record { op = stay; spurious = false; completed = true }

abbrev number_calls : Calls
number_calls = cell_calls (λ (a b : ℕ). a == b)

abbrev asks : Option (CellCall ℕ) → GuardedChoice serial_lock number_calls
asks g = record { lock = lock_choice; call = g }

-- Both threads want to change 1; thread 1 comes second.
abbrev exchanges : List (ℕ × GuardedChoice serial_lock number_calls)
exchanges =
    (0, asks (some (compare_exchange 1 2))) ∷ replicate 6 (0, asks none)
    ++ ((1, asks (some (compare_exchange 1 3))) ∷ replicate 6 (1, asks none))

exchanges_result :
    map
      (λ t. map (λ e. e.1) t.log)
      (run
        (guarded_move serial_lock number_calls)
        exchanges
        (cell_start (λ a b. a == b) (7 ∷ 9 ∷ []) 1)).threads
    ≡ (some (exchanged 1) ∷ []) ∷ (some guarded ∷ []) ∷ []
unfolding serial_move serial_step serial_call slow_branch
exchanges_result = refl
