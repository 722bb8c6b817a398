-- ===== src/Atomic/Tests.antt =====
-- atomic/atomic.rs: two threads that add to one `Atomic`, and the theorems there.
use crossync.Prelude.{
  ℕ, ◌+◌, ◌-◌, ◌%◌, ◌^◌, ◌≡◌, refl, arith, true, false, ltb, ◌==◌, Option, none, some, List, [],
  ◌∷◌, ◌++◌, replicate, sum_by,
}
use crossync.Threads.{run}
use crossync.SerialMutex.Machine.{
  stay, SerialChoice, slow_branch, serial_call, serial_step, serial_move,
}
use crossync.SerialMutex.Guards.{serial_lock}
use crossync.Guarded.Machine.{Entry, GuardedTask, GuardedChoice, guarded_move}
use crossync.Guarded.History.{Event, Explains}
use crossync.Atomic.Ops.{Traits}
use crossync.Atomic.Calls.{fetch_add, atomic_calls}
use crossync.Atomic.Linear.{atomic_start, atomic_linearizes}
use crossync.Atomic.Counter.{counter_calls, counter_start, fetch_add_exact}

-- `u64` with the operators that the tests use.
instance u64_traits : Traits ℕ
u64_traits = record {
  default = 0;
  equal = λ a b. a == b;
  greater = λ a b. ltb b a;
  less = λ a b. ltb a b;
  add = λ a b. (a + b) % 2 ^ 64;
  sub = λ a b. (a + 2 ^ 64 - b) % 2 ^ 64;
  bit_and = λ a b. a;
  bit_or = λ a b. a;
  bit_xor = λ a b. a;
  bit_not = λ a. 2 ^ 64 - 1 - a;
}

abbrev lock_choice : SerialChoice
lock_choice = record { op = stay; spurious = false; completed = true }

abbrev adds : Option ℕ → GuardedChoice serial_lock counter_calls
adds k = record { lock = lock_choice; call = k }

-- Thread 0 adds 5; thread 1 begins to add 7 while thread 0 has loaded the value, and adds it later.
abbrev racing : List (ℕ × GuardedChoice serial_lock counter_calls)
racing =
    (0, adds (some 5)) ∷ replicate 2 (0, adds none)
    ++ ((1, adds (some 7)) ∷ replicate 3 (1, adds none))
    ++ replicate 4 (0, adds none)
    ++ replicate 8 (1, adds none)

racing_result :
    (run (guarded_move serial_lock counter_calls) racing (counter_start (1 ∷ 2 ∷ []) 30)).mem.value
    ≡ 42
unfolding serial_move serial_step serial_call slow_branch u64_traits
racing_result = refl

fetch_add_exact_example :
    let s = run (guarded_move serial_lock counter_calls) racing (counter_start (1 ∷ 2 ∷ []) 30) in
    s.mem.value
    ≡ (30
        + sum_by
            (λ (t : GuardedTask serial_lock counter_calls).
              sum_by (λ (en : Entry counter_calls). en.0) t.log)
            s.threads)
      % 2 ^ 64
unfolding u64_traits
fetch_add_exact_example =
    fetch_add_exact (1 ∷ 2 ∷ []) 30 racing (λ a b. refl) (omega arith)
      (omega arith, (omega arith, tt))

abbrev asks : GuardedChoice serial_lock (atomic_calls ℕ)
asks = record { lock = lock_choice; call = some (fetch_add 5) }

atomic_linearizes_example :
    let s =
      run
        (guarded_move serial_lock (atomic_calls ℕ))
        (replicate 6 (0, asks))
        (atomic_start ℕ (1 ∷ 2 ∷ []) 30) in
    (es : List (Event (atomic_calls ℕ))) × Explains serial_lock
      (atomic_calls ℕ)
      30
      s.mem
      s.threads
      es
atomic_linearizes_example =
    atomic_linearizes ℕ (1 ∷ 2 ∷ []) 30 (replicate 6 (0, asks)) (omega arith, (omega arith, tt))
