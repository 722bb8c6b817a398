-- ===== src/Coord/Exclusion.antt =====
-- core/coord.rs: in every interleaving, a writer is alone.
use crossync.Prelude.{
  ℕ, ◌^◌, ◌≤◌, ◌<◌, ◌≡◌, ◌⊎◌, inl, inr, sym, ap, ◌∙◌, arith, false, some, List, length, get_elem?,
  sum_by, sum_by-others, w-le-others, sum_by-congr, sum_by-zero,
}
use native.Mathlib.Decide.{ℕ_discrete}
use mathlib.Core.Path.{subst}
use crossync.Threads.{System, run, run_inv}
use crossync.Coord.Machine.{lanes, CoordMem, CoordOp, CoordTask, idle, exclusive, coord_move}
use crossync.Coord.Moves.{pins, intends, prepares, scanned, Local, Flags}
use crossync.Coord.Invariant.{counts_in, Placed, Coordinated, move-Coordinated}

abbrev pub coord_start : List CoordTask → System CoordMem CoordTask
coord_start ts = record {
  mem = record { readers = λ l. 0; writing = false; writers = false };
  threads = ts;
}

abbrev pub Idle : List CoordTask → Type 0
Idle ts = (i : ℕ) (t : CoordTask) → get_elem? ts i ≡ some t → (t.stage ≡ idle) × (t.lane ≤ lanes)

module _ (ts : List CoordTask) (few : length ts < 2 ^ 64) (placed : Placed ts) (idling : Idle ts)
    (sched : List (ℕ × CoordOp)) where
  start-Coordinated : Coordinated (coord_start ts).mem ts
  start-Coordinated = record {
    few = few;
    placed = placed;
    tally = λ l. sym (nothing (counts_in l) (λ t e. ground (arith, e)));
    flags = record {
      lock = omega (
        arith,
        nothing (λ t. prepares t.stage) (λ t e. ground (arith, e)),
        nothing (λ t. intends t.stage) (λ t e. ground (arith, e)),
      );
      intent = nothing (λ t. intends t.stage) (λ t e. ground (arith, e));
    };
    locals = λ i t e. subst (Local (coord_start ts).mem t.lane) (sym (idling i t e).0) tt;
    range = λ i t e. (idling i t e).1;
    empty = λ i j t u e f lt. ap pins (idling j u f).0;
  }
    where
      nothing : (w : CoordTask → ℕ) → ((t : CoordTask) → t.stage ≡ idle → w t ≡ 0) → sum_by w ts ≡ 0
      nothing w none_idle =
          sum_by-congr w (λ _. 0) ts (λ i t e. none_idle t (idling i t e).0) ∙ sum_by-zero ts

  run-Coordinated :
      Coordinated
        (run coord_move sched (coord_start ts)).mem
        (run coord_move sched (coord_start ts)).threads
  run-Coordinated =
      run_inv coord_move Coordinated (λ c m ts i t e h. move-Coordinated c m ts i t e h) sched
        (coord_start ts) start-Coordinated

  -- Fewer than 2 ^ 64 threads, each with one guard at most and in a lane that is its own unless it is
  -- the last one, use a `Coord`: in every interleaving, if thread `i` has exclusive access and thread
  -- `j` has access of either kind, they are one thread.
  pub coord_exclusion :
      (i j : ℕ) (t u : CoordTask)
      → get_elem? (run coord_move sched (coord_start ts)).threads i ≡ some t
      → get_elem? (run coord_move sched (coord_start ts)).threads j ≡ some u
      → t.stage ≡ exclusive
      → (pins u.stage ≡ 1) ⊎ (u.stage ≡ exclusive)
      → i ≡ j
  coord_exclusion i j t u e f whole part = elim (ℕ_discrete i j) [
    | yes same ↦ same
    | no ne ↦ elim part [
      | inl touching ↦ absurd (
          omega (
            arith,
            touching,
            run-Coordinated.empty i j t u e f
                (omega (arith, ap scanned whole, run-Coordinated.range j u f)),
          ))
      | inr too ↦
          let w : CoordTask → ℕ = λ t. intends t.stage in
          let ts' = (run coord_move sched (coord_start ts)).threads in
          absurd (
            omega (
              arith,
              ap intends whole,
              ap intends too,
              sum_by-others w ts' i t e,
              w-le-others w ts' i j u ne f,
              at_most_one _ _ _ run-Coordinated.flags,
            ))
    ]
  ]
    where
      at_most_one : (m : CoordMem) (a b : ℕ) → Flags m a b → b ≤ 1
      at_most_one m a b f = ground (arith, f)
