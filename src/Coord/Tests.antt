-- ===== src/Coord/Tests.antt =====
-- core/coord.rs: a reader that retries before a writer, and the theorems there.
use crossync.Prelude.{
  ℕ, zero, suc, ◌≤◌, All-get, ◌≡◌, inr, refl, arith, List, [], ◌∷◌, ◌++◌, replicate,
}
use crossync.Threads.{run}
use crossync.Coord.Machine.{
  lanes, CoordOp, CoordTask, call_shared, call_exclusive, stay, idle, wait_writing, exclusive,
  coord_step, coord_call, coord_move,
}
use crossync.Coord.Invariant.{Placed}
use crossync.Coord.Exclusion.{coord_start, Idle, coord_exclusion}

abbrev two_tasks : List CoordTask
two_tasks = record { lane = 1; stage = idle } ∷ record { lane = 2; stage = idle } ∷ []

-- Thread 0 sets its intent; thread 1 pins, sees it and takes its pin back; thread 0 finds every
-- lane empty.
abbrev writer_first : List (ℕ × CoordOp)
writer_first =
    (0, call_exclusive) ∷ (0, stay) ∷ (0, stay) ∷ (1, call_shared) ∷ replicate 4 (1, stay)
    ++ replicate 65 (0, stay)

writer_first_result :
    (run coord_move writer_first (coord_start two_tasks)).threads
    ≡ record { lane = 1; stage = exclusive } ∷ record { lane = 2; stage = wait_writing } ∷ []
unfolding coord_step coord_call
writer_first_result = refl

two_tasks-Placed : Placed two_tasks
two_tasks-Placed zero zero t u e f ne lt = absurd (ne refl)
two_tasks-Placed zero (suc zero) t u e f ne lt = ground (arith, e, f)
two_tasks-Placed (suc zero) zero t u e f ne lt = ground (arith, e, f)
two_tasks-Placed (suc zero) (suc zero) t u e f ne lt = absurd (ne refl)
two_tasks-Placed (suc (suc i)) j t u e f ne lt = absurd (ground (arith, e))
two_tasks-Placed zero (suc (suc j)) t u e f ne lt = absurd (ground (arith, f))
two_tasks-Placed (suc zero) (suc (suc j)) t u e f ne lt = absurd (ground (arith, f))

two_tasks-Idle : Idle two_tasks
two_tasks-Idle i t e =
    All-get (λ t. (t.stage ≡ idle) × (t.lane ≤ lanes)) two_tasks i
      ((refl, omega arith), ((refl, omega arith), tt)) e

coord_exclusion_example : ◌≡◌ {A = ℕ} 0 0
unfolding coord_step coord_call
coord_exclusion_example =
    coord_exclusion two_tasks (omega arith) two_tasks-Placed two_tasks-Idle writer_first 0 0
      (record { lane = 1; stage = exclusive }) (record { lane = 1; stage = exclusive }) refl refl
      refl (inr refl)
