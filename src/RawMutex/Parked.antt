-- ===== src/RawMutex/Parked.antt =====
-- core/mutex.rs: a parked flag never outlives the writers that it stands for.
use crossync.Prelude.{All-replicate, ℕ, ◌+◌, ◌<◌, ◌≡◌, arith, List, true, sum_by}
use crossync.Threads.{run, run-Census}
use crossync.RawMutex.Word.{writers_parked}
use crossync.RawMutex.Machine.{
  Mem, Choice, Pc, idle, exclusive_load, exclusive_loop, exclusive_key, exclusive_check,
  exclusive_wait, call, exclusive_slow, shared_slow, unlock_slow, downgrade_slow, release_shared,
  move,
}
use crossync.RawMutex.Ownership.{writes, Knows, move-Knows, start}

-- In the slow path of `lock_exclusive`.
abbrev pub pends : Pc → ℕ
pends exclusive_load = 1
pends (exclusive_loop _) = 1
pends exclusive_key = 1
pends (exclusive_check _) = 1
pends (exclusive_wait _) = 1
pends _ = 0

-- The flag of a parked writer stands for a thread in the slow path.
abbrev Vouched : Mem → ℕ → ℕ → Type 0
Vouched m pending _ = writers_parked m.state ≡ true → 0 < pending

move-Vouched :
    (c : Choice) (m : Mem) (p : Pc) (r w : ℕ)
    → Knows p
    → Vouched m (r + pends p) (w + writes p)
    → Vouched (move c m p).0 (r + pends (move c m p).1) (w + writes (move c m p).1)
unfolding move call exclusive_slow shared_slow unlock_slow downgrade_slow release_shared
move-Vouched c m idle r w k h = ground arith
move-Vouched c m p r w k h = ground arith

-- In every reachable state, a word that turns readers away for a parked writer has a thread in the
-- slow path of `lock_exclusive`, which has yet to take the lock.
pub parked_writer_exists :
    (n : ℕ) (sched : List (ℕ × Choice))
    → writers_parked (run move sched (start n)).mem.state ≡ true
    → 0 < sum_by pends (run move sched (start n)).threads
parked_writer_exists n sched =
    (run-Census move Knows pends writes Vouched (λ c m p k. move-Knows c m p) move-Vouched sched
      (start n)
      (record { agrees = λ e. ground arith; knows = All-replicate Knows n idle tt })).agrees
