-- ===== src/Parker/Wakeups.antt =====
-- core/thread.rs: tokens and wakeups in every interleaving.
use crossync.Prelude.{
  ℕ, ◌+◌, ◌<◌, ◌≡◌, refl, sym, arith, some, List, get_elem?, set, replicate, sum_by, others,
  sum_by-others, sum_by-set, sum_by-replicate,
}
use crossync.Threads.{System, run, run_inv}
use crossync.Parker.Machine.{ParkMem, ParkChoice, ParkTask, rest, park_move}
use crossync.Parker.Moves.{sleeps, loops, wakes, Parks, move-Parks}

abbrev Balanced : ParkMem → List ParkTask → Type 0
Balanced m ts =
    Parks m (sum_by sleeps ts) (sum_by loops ts) (sum_by wakes ts) (sum_by (λ t. t.parked) ts)
      (sum_by (λ t. t.added) ts)

move-Balanced :
    (c : ParkChoice) (m : ParkMem) (ts : List ParkTask) (i : ℕ) (t : ParkTask)
    → get_elem? ts i ≡ some t
    → Balanced m ts
    → Balanced (park_move c m t).0 (set ts i (park_move c m t).1)
move-Balanced c m ts i t e h =
    let t' = (park_move c m t).1 in
    rw
      (
        sum_by-set sleeps ts i t t' e,
        sum_by-set loops ts i t t' e,
        sum_by-set wakes ts i t t' e,
        sum_by-set (λ (t : ParkTask). t.parked) ts i t t' e,
        sum_by-set (λ (t : ParkTask). t.added) ts i t t' e,
      )
      (move-Parks c m t.stage t (others sleeps ts i) (others loops ts i) (others wakes ts i)
        (others (λ t. t.parked) ts i) (others (λ t. t.added) ts i) refl
        (rw
          (
            sym (sum_by-others sleeps ts i t e),
            sym (sum_by-others loops ts i t e),
            sym (sum_by-others wakes ts i t e),
            sym (sum_by-others (λ (t : ParkTask). t.parked) ts i t e),
            sym (sum_by-others (λ (t : ParkTask). t.added) ts i t e),
          )
          h))

abbrev new_task : ParkTask
new_task = record { stage = rest; parked = 0; added = 0 }

-- `ThreadParker::new`, whose token is UNPARKED, shared by a number of threads.
abbrev pub park_start : ℕ → System ParkMem ParkTask
park_start n = record {
  mem = record { tokens = 1; queue = record { waiting = 0; woken = 0 } };
  threads = replicate n new_task;
}

module _ (n : ℕ) (sched : List (ℕ × ParkChoice)) where
  run-Balanced :
      Balanced (run park_move sched (park_start n)).mem (run park_move sched (park_start n)).threads
  run-Balanced = run_inv park_move Balanced move-Balanced sched (park_start n) (
      ground (
        arith,
        sum_by-replicate sleeps n new_task refl,
        sum_by-replicate loops n new_task refl,
        sum_by-replicate wakes n new_task refl,
        sum_by-replicate (λ (t : ParkTask). t.parked) n new_task refl,
        sum_by-replicate (λ (t : ParkTask). t.added) n new_task refl,
      ))

  -- Any number of threads share a parker. In every interleaving of their calls of park and unpark, if
  -- there is a token and a thread is asleep, then a thread is woken and about to return from its wait,
  -- or is in the loop of park and about to look for the token, or an unpark is about to wake a thread:
  -- nobody sleeps for good beside a token.
  pub no_lost_wakeup :
      let z = run park_move sched (park_start n) in
      0 < z.mem.tokens
      → 0 < sum_by sleeps z.threads
      → 0 < z.mem.queue.woken + sum_by loops z.threads + sum_by wakes z.threads
  no_lost_wakeup token sleeper = ground (arith, run-Balanced, token, sleeper)

  -- Under the same conditions, every park that has returned took a token of its own: with the tokens
  -- that are left they are the tokens that unpark has added, and the first one.
  pub tokens_exact :
      let z = run park_move sched (park_start n) in
      sum_by (λ (t : ParkTask). t.parked) z.threads + z.mem.tokens
      ≡ sum_by (λ (t : ParkTask). t.added) z.threads + 1
  tokens_exact = run-Balanced.balance
