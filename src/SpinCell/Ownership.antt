-- ===== src/SpinCell/Ownership.antt =====
-- lock_free/splcell.rs: what the state word says of the threads that hold the lock, in every
-- interleaving of fewer threads than the word can count.
use crossync.Prelude.{
  sum_by-others, w-le-others, sum_by-replicate, All-replicate, ℕ, ◌+◌, ◌-◌, ◌*◌, ◌/◌, ◌≤◌, ◌<◌, ◌^◌,
  ◌≡◌, refl, arith, List, true, some, get_elem?, sum_by, replicate, length-replicate, ◌↔◌,
}
use native.Mathlib.Decide.{ℕ_discrete}
use crossync.RawMutex.Word.{admits_reader, readers_count, is_writer_locked, is_locked_shared}
use crossync.Threads.{System, run, Census, run-Census_within}
use crossync.SpinCell.Machine.{
  CellChoice, CellPc, idle, exclusive, shared, shared_fast_cas, unlock_exclusive_store,
  unlock_shared_sub, cell_call, cell_exclusive_slow, cell_shared_slow, cell_move,
}

-- Between a shared acquisition and the `fetch_sub` of its release.
abbrev pub cell_reads : CellPc → ℕ
cell_reads shared = 1
cell_reads unlock_shared_sub = 1
cell_reads _ = 0

-- Between an exclusive acquisition and the store of its release.
abbrev pub cell_writes : CellPc → ℕ
cell_writes exclusive = 1
cell_writes unlock_exclusive_store = 1
cell_writes _ = 0

-- The word with `r` threads that read and `w` that write.
pub record Tallies (state r w : ℕ) : Type 0 where
  pub held : state / 4 ≡ r + w * (2 ^ 62 - 1)
  pub one : w ≤ 1
  pub alone : w ≡ 1 → r ≡ 0
  pub room : r < 2 ^ 62 - 1

-- What the locals of a thread are known to satisfy.
abbrev pub Seen : CellPc → Type 0
Seen (shared_fast_cas state) = admits_reader state ≡ true
Seen _ = Unit

pub cell_move-Seen : (c : CellChoice) (m : ℕ) (p : CellPc) → Seen p → Seen (cell_move c m p).1
unfolding cell_move cell_call cell_exclusive_slow cell_shared_slow
cell_move-Seen c m idle k = ground arith
cell_move-Seen c m p k = ground arith

cell_reads-le : (p : CellPc) → cell_reads p ≤ 1
cell_reads-le p = ground arith

-- One access of one thread, with `r` readers and `w` writers among the others.
cell_move-Tallies :
    (c : CellChoice) (m : ℕ) (p : CellPc) (r w : ℕ)
    → r < 2 ^ 62 - 2
    → Seen p
    → Tallies m (r + cell_reads p) (w + cell_writes p)
    → Tallies
        (cell_move c m p).0
        (r + cell_reads (cell_move c m p).1)
        (w + cell_writes (cell_move c m p).1)
unfolding cell_move cell_call cell_exclusive_slow cell_shared_slow
cell_move-Tallies c m idle r w lt k h = ground arith
cell_move-Tallies c m p r w lt k h = ground arith

abbrev pub cell_start : ℕ → System ℕ CellPc
cell_start n = record { mem = 0; threads = replicate n idle }

module _ (n : ℕ) (few : n ≤ 2 ^ 62 - 2) (sched : List (ℕ × CellChoice)) where
  run-Tallies :
      Census cell_move Seen cell_reads cell_writes Tallies
        (run cell_move sched (cell_start n)).mem
        (run cell_move sched (cell_start n)).threads
  run-Tallies =
      run-Census_within cell_move Seen cell_reads cell_writes Tallies n cell_reads-le cell_move-Seen
        (λ c m p r w lt k h. cell_move-Tallies c m p r w (omega (arith, lt, few)) k h) sched
        (cell_start n) (length-replicate n idle)
        (record {
          agrees = omega (
            arith,
            sum_by-replicate cell_reads n idle refl,
            sum_by-replicate cell_writes n idle refl,
          );
          knows = All-replicate Seen n idle tt;
        })

  -- At most 2 ^ 62 - 2 threads share a `SpinCell` with one guard each: in every interleaving, if
  -- thread `i` holds the lock exclusively and thread `j` holds it in either mode, they are one thread.
  pub cell_mutual_exclusion :
      (i j : ℕ) (p q : CellPc)
      → get_elem? (run cell_move sched (cell_start n)).threads i ≡ some p
      → get_elem? (run cell_move sched (cell_start n)).threads j ≡ some q
      → cell_writes p ≡ 1
      → 0 < cell_reads q + cell_writes q
      → i ≡ j
  cell_mutual_exclusion i j p q hi hj hw hq = elim (ℕ_discrete i j) [
    | yes e ↦ e
    | no ne ↦
        let ps = (run cell_move sched (cell_start n)).threads in
        absurd (
          grind (
            arith,
            run-Tallies.agrees,
            sum_by-others cell_reads ps i p hi,
            sum_by-others cell_writes ps i p hi,
            w-le-others cell_reads ps i j q ne hj,
            w-le-others cell_writes ps i j q ne hj,
          ))
  ]

  -- At most 2 ^ 62 - 2 threads share a `SpinCell` with one guard each: in every reachable state
  -- `get_shared_locked` is the number of threads that hold it shared, `is_locked_exclusive` says
  -- whether a thread holds it exclusively, and `is_locked_shared` whether one holds it shared.
  pub cell_queries_exact :
      let s = run cell_move sched (cell_start n) in
      (readers_count s.mem ≡ sum_by cell_reads s.threads)
      × ((is_writer_locked s.mem ≡ true) ↔ (sum_by cell_writes s.threads ≡ 1))
      × ((is_locked_shared s.mem ≡ true) ↔ (0 < sum_by cell_reads s.threads))
  cell_queries_exact = ground (arith, run-Tallies.agrees)
