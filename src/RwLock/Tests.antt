-- ===== src/RwLock/Tests.antt =====
-- sync/rw_lock.rs: a reader and a writer whose try fails, and the theorems there.
use crossync.Prelude.{
  ℕ, ◌+◌, ◌≡◌, refl, false, true, Option, none, some, List, [], ◌∷◌, ◌++◌, replicate, map,
}
use crossync.Threads.{run}
use crossync.RawMutex.Machine.{stay, Choice, call, release_shared, move}
use crossync.RawMutex.Guards.{raw_lock}
use crossync.Guarded.Machine.{GuardedChoice, guarded_move}
use crossync.Guarded.History.{Event, Explains}
use crossync.RwLock.Calls.{RwCall, with_shared, try_with_exclusive, rw_calls}
use crossync.RwLock.Linear.{rw_start, rw_lock_linearizes}

abbrev lock_choice : Choice
lock_choice = record { op = stay; spurious = false; completed = true }

abbrev asks : Option (RwCall ℕ) → GuardedChoice raw_lock (rw_calls ℕ)
asks g = record { lock = lock_choice; call = g }

-- Thread 1 tries to write while thread 0 is about to read; both then finish.
abbrev read_and_try : List (ℕ × GuardedChoice raw_lock (rw_calls ℕ))
read_and_try =
    (0, asks (some (with_shared (λ v. v + 1)))) ∷ replicate 3 (0, asks none)
    ++ ((1, asks (some (try_with_exclusive (λ v. (v, v + 1))))) ∷ replicate 2 (1, asks none))
    ++ replicate 4 (0, asks none)

read_and_try_result :
    map
      (λ t. map (λ e. e.1) t.log)
      (run (guarded_move raw_lock (rw_calls ℕ)) read_and_try (rw_start ℕ 2 40)).threads
    ≡ (some 41 ∷ []) ∷ (none ∷ []) ∷ []
unfolding move call release_shared
read_and_try_result = refl

rw_lock_linearizes_example :
    let s = run (guarded_move raw_lock (rw_calls ℕ)) read_and_try (rw_start ℕ 2 40) in
    (es : List (Event (rw_calls ℕ))) × Explains raw_lock (rw_calls ℕ) 40 s.mem s.threads es
rw_lock_linearizes_example = rw_lock_linearizes ℕ 2 40 read_and_try
