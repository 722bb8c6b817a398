-- ===== src/SpinCell/Tests.antt =====
-- lock_free/splcell.rs: the theorems at concrete schedules and states.
use crossync.Prelude.{ℕ, ◌+◌, ◌≡◌, refl, arith, List, [], ◌∷◌, true, false, replicate}
use crossync.Threads.{run}
use crossync.RawMutex.Word.{one_writer}
use crossync.SpinCell.Machine.{
  CellOp, lock_exclusive, stay, CellChoice, exclusive, exclusive_load, cell_call,
  cell_exclusive_slow, cell_move,
}
use crossync.SpinCell.Ownership.{cell_start, cell_mutual_exclusion}

abbrev cell_asks : CellOp → CellChoice
cell_asks o = record { op = o; spurious = false; completed = true }

-- Thread 0 takes the lock, and thread 1 raises the writers' flag.
abbrev two_writers : List (ℕ × CellChoice)
two_writers =
    (0, cell_asks lock_exclusive)
    ∷ (0, cell_asks stay)
    ∷ (1, cell_asks lock_exclusive)
    ∷ replicate 3 (1, cell_asks stay)

two_writers_result :
    run cell_move two_writers (cell_start 2)
    ≡ record { mem = one_writer + 2; threads = exclusive ∷ exclusive_load ∷ [] }
unfolding cell_move cell_call cell_exclusive_slow
two_writers_result = refl

cell_mutual_exclusion_example : ◌≡◌ {A = ℕ} 0 0
unfolding cell_move cell_call cell_exclusive_slow
cell_mutual_exclusion_example =
    cell_mutual_exclusion 2 (omega arith) two_writers 0 0 exclusive exclusive refl refl refl
      (omega arith)
