-- ===== src/RwLock/Linear.antt =====
-- sync/rw_lock.rs: the calls of threads that share an `RwLock`, under the `RawMutex` of
-- core/mutex.rs.
use crossync.Prelude.{ℕ, ◌≡◌, refl, List, All-replicate}
use crossync.Threads.{System, run}
use crossync.RawMutex.Machine.{idle}
use crossync.RawMutex.Ownership.{start, start-Inv, Inv}
use crossync.RawMutex.Guards.{raw_lock, raw_place, raw_lock-IsLawful}
use crossync.Guarded.Lock.{out}
use crossync.Guarded.Machine.{GuardedMem, GuardedTask, GuardedChoice, guarded_move}
use crossync.Guarded.History.{Event, Explains, guarded_start}
use crossync.Guarded.Linear.{run-Explains}
use crossync.RwLock.Calls.{rw_calls}

module _ (T : Type 0) where
  -- `RwLock::new`, shared by a number of threads.
  abbrev pub rw_start :
      ℕ → T → System (GuardedMem raw_lock (rw_calls T)) (GuardedTask raw_lock (rw_calls T))
  rw_start n v₀ = guarded_start raw_lock (rw_calls T) v₀ (start n).mem (start n).threads

  -- Any number of threads share an `RwLock`. In every interleaving of the accesses of their calls, those
  -- of the lock included, the calls that have applied their closure and the tries that got no lock have
  -- an order in which they explain, one after the other, the value that is stored and the results of
  -- every thread in its order, where a try that got no lock changes nothing; and only tries get none.
  pub rw_lock_linearizes :
      (n : ℕ) (v₀ : T) (sched : List (ℕ × GuardedChoice raw_lock (rw_calls T)))
      → let s = run (guarded_move raw_lock (rw_calls T)) sched (rw_start n v₀) in
        (es : List (Event (rw_calls T))) × Explains raw_lock (rw_calls T) v₀ s.mem s.threads es
  rw_lock_linearizes n v₀ sched =
      run-Explains raw_lock (rw_calls T) Inv raw_lock-IsLawful v₀ (start n).mem (start n).threads
        sched (start-Inv n) (All-replicate (λ p. raw_place p ≡ out) n idle refl)
