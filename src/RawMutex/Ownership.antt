-- ===== src/RawMutex/Ownership.antt =====
-- core/mutex.rs: what the state word says of the threads that hold the lock, in every interleaving.
use crossync.Prelude.{
  sum_by-others, w-le-others, sum_by-replicate, All-replicate, ℕ, ◌+◌, ◌-◌, ◌*◌, ◌/◌, ◌≤◌, ◌<◌, ◌^◌,
  ◌≡◌, refl, arith, List, true, some, get_elem?, set, sum_by, replicate, ◌↔◌,
}
use native.Mathlib.Decide.{ℕ_discrete}
use crossync.RawMutex.Word.{admits_reader, readers_count, is_writer_locked, is_locked_shared}
use crossync.Threads.{System, run, Census, move-Census, run-Census}
use crossync.RawMutex.Machine.{
  Mem, new, Choice, Pc, idle, exclusive, shared, unlock_exclusive_cas, unlock_exclusive_load,
  unlock_exclusive_loop, unlock_shared_sub, downgrade_load, downgrade_loop, wake_readers, call,
  shared_fast_cas, exclusive_slow, shared_slow, unlock_slow, downgrade_slow, release_shared, move,
}

-- Between a shared acquisition and the `fetch_sub` of its release.
abbrev pub reads : Pc → ℕ
reads shared = 1
reads unlock_shared_sub = 1
reads (wake_readers true) = 1
reads _ = 0

-- Between an exclusive acquisition and the compare-exchange that gives it up.
abbrev pub writes : Pc → ℕ
writes exclusive = 1
writes unlock_exclusive_cas = 1
writes unlock_exclusive_load = 1
writes (unlock_exclusive_loop _) = 1
writes downgrade_load = 1
writes (downgrade_loop _) = 1
writes _ = 0

-- The word with `r` threads that read and `w` that write.
pub record Agrees (state r w : ℕ) : Type 0 where
  pub held : state / 4 ≡ r + w * (2 ^ 62 - 1)
  pub one : w ≤ 1
  pub alone : w ≡ 1 → r ≡ 0
  pub room : w ≡ 0 → r < 2 ^ 62 - 1

-- What the locals of a thread are known to satisfy.
abbrev pub Knows : Pc → Type 0
Knows (shared_fast_cas _ state) = admits_reader state ≡ true
Knows _ = Unit

pub move-Knows : (c : Choice) (m : Mem) (p : Pc) → Knows (move c m p).1
unfolding move call exclusive_slow shared_slow unlock_slow downgrade_slow release_shared
move-Knows c m idle = ground arith
move-Knows c m p = ground arith

-- One access of one thread, with `r` readers and `w` writers among the others.
move-Agrees :
    (c : Choice) (m : Mem) (p : Pc) (r w : ℕ)
    → Knows p
    → Agrees m.state (r + reads p) (w + writes p)
    → Agrees (move c m p).0.state (r + reads (move c m p).1) (w + writes (move c m p).1)
unfolding move call exclusive_slow shared_slow unlock_slow downgrade_slow release_shared
move-Agrees c m idle r w k h = ground arith
move-Agrees c m p r w k h = ground arith

-- The threads together.
abbrev pub Inv : Mem → List Pc → Type 0
Inv = Census move Knows reads writes (λ m. Agrees m.state)

abbrev pub start : ℕ → System Mem Pc
start n = record { mem = new; threads = replicate n idle }

pub start-Inv : (n : ℕ) → Inv (start n).mem (start n).threads
start-Inv n = record {
  agrees = omega (arith, sum_by-replicate reads n idle refl, sum_by-replicate writes n idle refl);
  knows = All-replicate Knows n idle tt;
}

pub move-Inv :
    (c : Choice) (m : Mem) (ps : List Pc) (i : ℕ) (p : Pc)
    → get_elem? ps i ≡ some p
    → Inv m ps
    → Inv (move c m p).0 (set ps i (move c m p).1)
move-Inv =
    move-Census move Knows reads writes (λ m. Agrees m.state) (λ c m p k. move-Knows c m p)
      move-Agrees

-- The invariant holds after every schedule of every number of threads.
pub run-Inv :
    (n : ℕ) (sched : List (ℕ × Choice))
    → Inv (run move sched (start n)).mem (run move sched (start n)).threads
run-Inv n sched =
    run-Census move Knows reads writes (λ m. Agrees m.state) (λ c m p k. move-Knows c m p)
      move-Agrees sched (start n) (start-Inv n)

pub Inv-alone :
    (m : Mem) (ts : List Pc)
    → Inv m ts
    → (i j : ℕ) (p q : Pc) → get_elem? ts i ≡ some p
    → get_elem? ts j ≡ some q
    → writes p ≡ 1
    → 0 < reads q + writes q
    → i ≡ j
Inv-alone m ts h i j p q hi hj hw hq = elim (ℕ_discrete i j) [
  | yes e ↦ e
  | no ne ↦ absurd (
      grind (
        arith,
        h.agrees,
        sum_by-others reads ts i p hi,
        sum_by-others writes ts i p hi,
        w-le-others reads ts i j q ne hj,
        w-le-others writes ts i j q ne hj,
      ))
]

-- With a thread in possession of the writer's lock, no other thread reads or writes: in every
-- interleaving of any number of threads, if thread `i` is between an exclusive acquisition and its
-- release, and thread `j` is in possession of the lock in either mode, then they are one thread.
pub mutual_exclusion :
    (n : ℕ) (sched : List (ℕ × Choice)) (i j : ℕ) (p q : Pc)
    → get_elem? (run move sched (start n)).threads i ≡ some p
    → get_elem? (run move sched (start n)).threads j ≡ some q
    → writes p ≡ 1
    → 0 < reads q + writes q
    → i ≡ j
mutual_exclusion n sched i j p q hi hj hw hq =
    let s = run move sched (start n) in
    Inv-alone s.mem s.threads (run-Inv n sched) i j p q hi hj hw hq

-- In every reachable state the queries of the lock are exact: `get_shared_locked` is the number of
-- threads that hold it shared, `is_locked_exclusive` says whether a thread holds it exclusively,
-- and `is_locked_shared` whether some thread holds it shared.
pub queries_exact :
    (n : ℕ) (sched : List (ℕ × Choice))
    → let s = run move sched (start n) in
      (readers_count s.mem.state ≡ sum_by reads s.threads)
      × ((is_writer_locked s.mem.state ≡ true) ↔ (sum_by writes s.threads ≡ 1))
      × ((is_locked_shared s.mem.state ≡ true) ↔ (0 < sum_by reads s.threads))
queries_exact n sched = ground (arith, (run-Inv n sched).agrees)
