-- ===== src/Atomic/Linear.antt =====
-- atomic/atomic.rs: the calls of threads that share an `Atomic`, under the `SerialMutex` of
-- core/serial.rs.
use crossync.Prelude.{ℕ, ◌<◌, List, All}
use crossync.Threads.{System, run}
use crossync.SerialMutex.Exclusion.{serial_start, start-Ledger}
use crossync.SerialMutex.Guards.{serial_lock, serial_lock-IsLawful, serial_start-out}
use crossync.Guarded.Machine.{GuardedMem, GuardedTask, GuardedChoice, guarded_move}
use crossync.Guarded.History.{Event, Explains, guarded_start}
use crossync.Guarded.Linear.{run-Explains}
use crossync.Atomic.Ops.{Traits}
use crossync.Atomic.Calls.{atomic_calls}

module _ (T : Type 0) ⦃traits : Traits T⦄ where
  -- `Atomic::new`, and threads with ids.
  abbrev pub atomic_start :
      List ℕ
      → T
      → System (GuardedMem serial_lock (atomic_calls T)) (GuardedTask serial_lock (atomic_calls T))
  atomic_start owners v₀ =
      guarded_start serial_lock (atomic_calls T) v₀ (serial_start owners).mem
        (serial_start owners).threads

  -- Threads with positive ids share an `Atomic`. In every interleaving of the accesses of their calls,
  -- those of the lock included, the calls that have applied their closure have an order in which they
  -- explain, one after the other, the value that is stored and the results of every thread in its
  -- order; only a try can fail to get the lock.
  pub atomic_linearizes :
      (owners : List ℕ) (v₀ : T) (sched : List (ℕ × GuardedChoice serial_lock (atomic_calls T)))
      → All (λ o. 0 < o) owners
      → let s = run (guarded_move serial_lock (atomic_calls T)) sched (atomic_start owners v₀) in
        (es : List (Event (atomic_calls T))) × Explains serial_lock
          (atomic_calls T)
          v₀
          s.mem
          s.threads
          es
  atomic_linearizes owners v₀ sched ids =
      run-Explains serial_lock (atomic_calls T) _ serial_lock-IsLawful v₀ (serial_start owners).mem
        (serial_start owners).threads sched (start-Ledger owners ids) (serial_start-out owners)
