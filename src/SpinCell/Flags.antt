-- ===== src/SpinCell/Flags.antt =====
-- lock_free/splcell.rs: the parked flag of the writers, and what a writer that is alone achieves.
use crossync.Prelude.{
  All-replicate, ℕ, zero, suc, ◌+◌, ◌%◌, ◌<◌, ◌≡◌, refl, arith, Bool, false, List, true, sum_by,
}
use crossync.Threads.{run, run-Census, solo}
use crossync.RawMutex.Word.{writers_parked, holder_bits, one_writer}
use crossync.SpinCell.Machine.{
  stay, CellChoice, CellPc, idle, exclusive, exclusive_cas, exclusive_load, exclusive_loop,
  cell_call, cell_exclusive_slow, cell_shared_slow, cell_move,
}
use crossync.SpinCell.Ownership.{cell_writes, Seen, cell_move-Seen, cell_start}

-- In the slow path of `lock_exclusive`.
abbrev pub cell_pends : CellPc → ℕ
cell_pends exclusive_load = 1
cell_pends (exclusive_loop _) = 1
cell_pends _ = 0

-- The flag of a parked writer stands for a thread that pends, or for the writer that holds the lock.
abbrev Backed : ℕ → ℕ → ℕ → Type 0
Backed m pending writing = writers_parked m ≡ true → 0 < pending + writing

move-Backed :
    (c : CellChoice) (m : ℕ) (p : CellPc) (r w : ℕ)
    → Seen p
    → Backed m (r + cell_pends p) (w + cell_writes p)
    → Backed
        (cell_move c m p).0
        (r + cell_pends (cell_move c m p).1)
        (w + cell_writes (cell_move c m p).1)
unfolding cell_move cell_call cell_exclusive_slow cell_shared_slow
move-Backed c m idle r w k h = ground arith
move-Backed c m p r w k h = ground arith

-- No flag is left behind: in every reachable state of any number of threads, a word that turns
-- readers away for a parked writer has a thread that holds the lock exclusively or is in the slow
-- path of `lock_exclusive`.
pub cell_parked_writer_exists :
    (n : ℕ) (sched : List (ℕ × CellChoice))
    → writers_parked (run cell_move sched (cell_start n)).mem ≡ true
    → let ps = (run cell_move sched (cell_start n)).threads in
      0 < sum_by cell_pends ps + sum_by cell_writes ps
cell_parked_writer_exists n sched =
    (run-Census cell_move Seen cell_pends cell_writes Backed cell_move-Seen move-Backed sched
      (cell_start n)
      (record { agrees = λ e. ground arith; knows = All-replicate Seen n idle tt })).agrees

abbrev pub cell_alone : CellChoice
cell_alone = record { op = stay; spurious = false; completed = true }

-- The points of `lock_exclusive`.
abbrev pub cell_wants : CellPc → Bool
cell_wants exclusive_cas = true
cell_wants exclusive_load = true
cell_wants (exclusive_loop _) = true
cell_wants _ = false

cell_stays : (n m : ℕ) → (solo cell_move n cell_alone (m, exclusive)).1 ≡ exclusive
unfolding cell_move cell_call
cell_stays zero m = refl
cell_stays (suc n) m = cell_stays n m

module _ (m : ℕ) (free : holder_bits m ≡ 0) where
  fresh_loop : (n : ℕ) → (solo cell_move (suc n) cell_alone (m, exclusive_loop m)).1 ≡ exclusive
  unfolding cell_move cell_exclusive_slow
  fresh_loop n = ground (arith, cell_stays n (m % 4 + one_writer))

-- From whatever point of `lock_exclusive`, also with a stale word, a thread that is left alone
-- acquires a `SpinCell` that nobody holds within three accesses, if no compare-exchange fails
-- without cause.
pub cell_exclusive_progress :
    (m : ℕ) (p : CellPc)
    → holder_bits m ≡ 0
    → cell_wants p ≡ true
    → (solo cell_move 3 cell_alone (m, p)).1 ≡ exclusive
unfolding cell_move cell_exclusive_slow
cell_exclusive_progress m exclusive_cas free w =
    ground (arith, cell_stays 2 one_writer, fresh_loop m free 0)
cell_exclusive_progress m exclusive_load free w = fresh_loop m free 1
cell_exclusive_progress m (exclusive_loop state) free w =
    ground (arith, cell_stays 2 (state % 4 + one_writer), fresh_loop m free 0, fresh_loop m free 1)
cell_exclusive_progress m p free w = ground arith
