-- ===== src/Counts/Freed.antt =====
-- core/mod.rs, atomic/cell.rs and sync/rw_lock.rs: the allocation that handles share is freed once,
-- and not while there is a handle.
use crossync.Prelude.{
  ℕ, suc, ◌+◌, ◌^◌, ◌≤◌, ◌<◌, ◌≡◌, refl, sym, ◌∙◌, arith, false, some, List, ◌∷◌, get_elem?, set,
  length, length-set, length-replicate, replicate, sum_by, others, sum_by-others, sum_by-set,
  sum_by-replicate, others_mono, others-lt-length, le-sum_by, All, All-get, All-set, All-replicate,
}
use crossync.Threads.{System, run, run_inv}
use crossync.Counts.Machine.{CountMem, CountOp, CountStage, rest, count_move}
use crossync.Counts.Moves.{handles, destroys, takes, doomed, Clones, Tally, move-Clones, move-Tally}

record Counted (n : ℕ) (m : CountMem) (ts : List CountStage) : Type 0 where
  size : length ts ≡ n
  clones : All Clones ts
  tally : Tally m (sum_by handles ts) (sum_by destroys ts) (sum_by takes ts) (sum_by doomed ts)

doomed-le : (s : CountStage) → doomed s ≤ 1
doomed-le s = ground arith

takes-le : (s : CountStage) → takes s ≤ handles s
takes-le s = ground arith

module _ (n : ℕ) (few : n ≤ 2 ^ 63) (op : CountOp) (m : CountMem) (ts : List CountStage) (i : ℕ)
    (s : CountStage) (e : get_elem? ts i ≡ some s) (h : Counted n m ts) where
  move-Counted : Counted n (count_move op m s).0 (set ts i (count_move op m s).1)
  move-Counted =
      let s' = (count_move op m s).1 in
      let known = All-get Clones ts i h.clones e in
      record {
        size = length-set ts i s' ∙ h.size;
        clones = All-set Clones ts i s' h.clones (move-Clones op m s known);
        tally =
            rw
              (
                sum_by-set handles ts i s s' e,
                sum_by-set destroys ts i s s' e,
                sum_by-set takes ts i s s' e,
                sum_by-set doomed ts i s s' e,
              )
              (move-Tally op m s (others handles ts i) (others destroys ts i) (others takes ts i)
                (others doomed ts i) n
                (omega (arith, others-lt-length doomed doomed-le ts i s e, h.size))
                (others_mono takes handles takes-le ts i) few known
                (rw
                  (
                    sym (sum_by-others handles ts i s e),
                    sym (sum_by-others destroys ts i s e),
                    sym (sum_by-others takes ts i s e),
                    sym (sum_by-others doomed ts i s e),
                  )
                  h.tally));
      }

-- The handle that `new` returns, and threads without one.
abbrev pub count_start : ℕ → System CountMem CountStage
count_start n = record {
  mem = record { ref_count = 1; in_transit = 0; freed = 0; aborted = false };
  threads = rest 1 ∷ replicate n (rest 0);
}

module _ (n : ℕ) (few : suc n ≤ 2 ^ 63) (sched : List (ℕ × CountOp)) where
  run-Counted :
      Counted
        (suc n)
        (run count_move sched (count_start n)).mem
        (run count_move sched (count_start n)).threads
  run-Counted =
      run_inv count_move (Counted (suc n))
        (λ op m ts i s e h. move-Counted (suc n) few op m ts i s e h) sched (count_start n)
        (record {
          size = ground (arith, length-replicate n (rest 0));
          clones = (tt, All-replicate Clones n (rest 0) tt);
          tally = ground (
            arith,
            sum_by-replicate handles n (rest 0) refl,
            sum_by-replicate destroys n (rest 0) refl,
            sum_by-replicate takes n (rest 0) refl,
            sum_by-replicate doomed n (rest 0) refl,
          );
        })

  -- At most 2 ^ 63 threads share an allocation by handles that they clone, drop, unwrap with
  -- `into_inner`, and pass on: in every interleaving a thread that has a handle, or is about to destroy
  -- the value, finds the value still in the allocation, and `ref_count` is then the number of handles.
  pub handle_alive :
      (i : ℕ) (s : CountStage)
      → let z = run count_move sched (count_start n) in
        get_elem? z.threads i ≡ some s
        → 0 < handles s + destroys s
        → (z.mem.freed ≡ 0) × (z.mem.ref_count ≡ sum_by handles z.threads + z.mem.in_transit)
  handle_alive i s e some_handle =
      let z = run count_move sched (count_start n) in
      ground (
        arith,
        run-Counted.tally,
        some_handle,
        le-sum_by handles z.threads i s e,
        le-sum_by destroys z.threads i s e,
      )

  -- Under the same conditions, the value leaves the allocation once at most, and it has left as soon as
  -- no thread has a handle or is about to destroy the value, and no handle is on its way.
  pub freed_once :
      let z = run count_move sched (count_start n) in
      (z.mem.freed ≤ 1)
      × (sum_by handles z.threads + sum_by destroys z.threads + z.mem.in_transit ≡ 0
          → z.mem.freed ≡ 1)
  freed_once = ground (arith, run-Counted.tally)
