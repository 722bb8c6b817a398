-- ===== src/Atomic/Counter.antt =====
-- atomic/atomic.rs: threads that count with `Atomic<u64>::fetch_add` lose nothing.
use crossync.Prelude.{ℕ, ◌+◌, ◌%◌, ◌^◌, ◌<◌, ◌≡◌, ap, sym, ◌∙◌, arith, List, [], ◌∷◌, All, sum_by}
use crossync.Threads.{System, run}
use crossync.SerialMutex.Exclusion.{serial_start, start-Ledger}
use crossync.SerialMutex.Guards.{serial_lock, serial_lock-IsLawful, serial_start-out}
use crossync.Guarded.Lock.{exclusive}
use crossync.Guarded.Machine.{Calls, Entry, GuardedMem, GuardedTask, GuardedChoice, guarded_move}
use crossync.Guarded.History.{Event, Blocks, replay, guarded_start}
use crossync.Guarded.Linear.{run-Explains}
use crossync.Guarded.Totals.{Explains-total}
use crossync.Atomic.Ops.{Traits, fetch_add}

module _ ⦃traits : Traits ℕ⦄ where
  -- A call is the number that it adds.
  abbrev pub counter_calls : Calls
  counter_calls = record {
    Value = ℕ;
    Reply = ℕ;
    Call = ℕ;
    mode = λ _. exclusive;
    body = λ k v. fetch_add k v;
  }

  abbrev pub counter_start :
      List ℕ
      → ℕ
      → System (GuardedMem serial_lock counter_calls) (GuardedTask serial_lock counter_calls)
  counter_start owners v₀ =
      guarded_start serial_lock counter_calls v₀ (serial_start owners).mem
        (serial_start owners).threads

  replay-sum :
      (v₀ : ℕ) (es : List (Event counter_calls))
      → ((a b : ℕ) → traits.add a b ≡ (a + b) % 2 ^ 64)
      → v₀ < 2 ^ 64
      → All (Blocks counter_calls) es
      → replay counter_calls es v₀ ≡ (v₀ + sum_by (λ (e : Event counter_calls). e.call) es) % 2 ^ 64
  replay-sum v₀ [] wraps small blocks = omega (arith, small)
  replay-sum v₀ (e ∷ es) wraps small blocks = ground (
    arith,
    blocks.0,
    wraps (replay counter_calls es v₀) e.call,
    replay-sum v₀ es wraps small blocks.1,
  )

  -- Threads with positive ids share an `Atomic<u64>`, whose `+` wraps around, and call `fetch_add` on
  -- it. In every interleaving of the accesses of their calls, those of the lock included, the value is
  -- the first one plus all that the calls in the threads' logs have added, modulo 2 ^ 64.
  pub fetch_add_exact :
      (owners : List ℕ) (v₀ : ℕ) (sched : List (ℕ × GuardedChoice serial_lock counter_calls))
      → ((a b : ℕ) → traits.add a b ≡ (a + b) % 2 ^ 64)
      → v₀ < 2 ^ 64
      → All (λ o. 0 < o) owners
      → let s = run (guarded_move serial_lock counter_calls) sched (counter_start owners v₀) in
        s.mem.value
        ≡ (v₀
            + sum_by
                (λ (t : GuardedTask serial_lock counter_calls).
                  sum_by (λ (en : Entry counter_calls). en.0) t.log)
                s.threads)
          % 2 ^ 64
  fetch_add_exact owners v₀ sched wraps small ids =
      let s = run (guarded_move serial_lock counter_calls) sched (counter_start owners v₀) in
      let (es, h) =
        run-Explains serial_lock counter_calls _ serial_lock-IsLawful v₀ (serial_start owners).mem
          (serial_start owners).threads sched (start-Ledger owners ids) (serial_start-out owners) in
      h.value_exact
      ∙ replay-sum v₀ es wraps small h.blocks
      ∙ ap (λ k. (v₀ + k) % 2 ^ 64)
          (sym (Explains-total serial_lock counter_calls (λ k. k) v₀ s.mem s.threads es h))
