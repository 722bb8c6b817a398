-- ===== src/Cell/Linear.antt =====
-- atomic/cell.rs: the calls of threads that share an `AtomicCell`, under the `SerialMutex` of
-- core/serial.rs.
use crossync.Prelude.{ℕ, ◌<◌, Bool, List, All}
use crossync.Threads.{System, run}
use crossync.SerialMutex.Exclusion.{serial_start, start-Ledger}
use crossync.SerialMutex.Guards.{serial_lock, serial_lock-IsLawful, serial_start-out}
use crossync.Guarded.Machine.{GuardedMem, GuardedTask, GuardedChoice, guarded_move}
use crossync.Guarded.History.{Event, Explains, guarded_start}
use crossync.Guarded.Linear.{run-Explains}
use crossync.Cell.Calls.{cell_calls}

module _ {T : Type 0} (equal : T → T → Bool) where
  -- `AtomicCell::new`, and threads with ids.
  abbrev pub cell_start :
      List ℕ
      → T
      → System
          (GuardedMem serial_lock (cell_calls equal))
          (GuardedTask serial_lock (cell_calls equal))
  cell_start owners v₀ =
      guarded_start serial_lock (cell_calls equal) v₀ (serial_start owners).mem
        (serial_start owners).threads

  -- Threads with positive ids share an `AtomicCell`. In every interleaving of the accesses of their
  -- calls, those of the lock included, the calls that have worked on the value have an order in which
  -- they explain, one after the other, the value that is stored and the results of every thread in its
  -- order; only a try can fail to get the lock.
  pub cell_linearizes :
      (owners : List ℕ) (v₀ : T) (sched : List (ℕ × GuardedChoice serial_lock (cell_calls equal)))
      → All (λ o. 0 < o) owners
      → let s = run (guarded_move serial_lock (cell_calls equal)) sched (cell_start owners v₀) in
        (es : List (Event (cell_calls equal))) × Explains serial_lock
          (cell_calls equal)
          v₀
          s.mem
          s.threads
          es
  cell_linearizes owners v₀ sched ids =
      run-Explains serial_lock (cell_calls equal) _ serial_lock-IsLawful v₀
        (serial_start owners).mem (serial_start owners).threads sched (start-Ledger owners ids)
        (serial_start-out owners)
