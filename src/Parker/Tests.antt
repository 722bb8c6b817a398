-- ===== src/Parker/Tests.antt =====
-- core/thread.rs: a thread that sleeps until another unparks it, and the theorems there.
use crossync.Prelude.{ℕ, ◌+◌, ◌<◌, ◌≡◌, refl, arith, false, List, [], ◌∷◌, ◌++◌, replicate, sum_by}
use crossync.Threads.{run}
use crossync.Parker.Machine.{
  ParkOp, park, unpark, stay, ParkChoice, asleep, wake_call, ParkTask, park_step, park_move,
}
use crossync.Parker.Moves.{loops, wakes}
use crossync.Parker.Wakeups.{park_start, no_lost_wakeup, tokens_exact}

abbrev asks : ParkOp → ParkChoice
asks o = record { op = o; spurious = false }

-- Thread 0 takes the first token, parks again and sleeps; thread 1 adds a token.
abbrev handed : List (ℕ × ParkChoice)
handed =
    (0, asks park) ∷ (0, asks stay) ∷ (0, asks park) ∷ replicate 3 (0, asks stay)
    ++ ((1, asks unpark) ∷ (1, asks stay) ∷ [])

handed_result : run park_move handed (park_start 2) ≡ record {
  mem = record { tokens = 1; queue = record { waiting = 1; woken = 0 } };
  threads =
      record { stage = asleep; parked = 1; added = 0 }
      ∷ record { stage = wake_call; parked = 0; added = 1 }
      ∷ [];
}
unfolding park_step
handed_result = refl

no_lost_wakeup_example :
    let z = run park_move handed (park_start 2) in
    0 < z.mem.queue.woken + sum_by loops z.threads + sum_by wakes z.threads
unfolding park_step
no_lost_wakeup_example = no_lost_wakeup 2 handed (omega arith) (omega arith)

tokens_exact_example :
    let z = run park_move handed (park_start 2) in
    sum_by (λ (t : ParkTask). t.parked) z.threads + z.mem.tokens
    ≡ sum_by (λ (t : ParkTask). t.added) z.threads + 1
tokens_exact_example = tokens_exact 2 handed
