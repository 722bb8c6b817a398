-- ===== src/CondVar/Wakeups.antt =====
-- core/scondvar.rs: no wakeup is lost in any interleaving.
use mathlib.Core.Path.{subst}
use crossync.Prelude.{
  ℕ, ◌+◌, ◌^◌, ◌<◌, ◌≡◌, refl, sym, inl, inr, arith, some, List, get_elem?, set, replicate, sum_by,
  others, sum_by-others, sum_by-set, sum_by-replicate, get_elem?-set_cases,
  eq_of_get_elem?-replicate,
}
use crossync.Threads.{System, run, run_inv}
use crossync.CondVar.Machine.{CondMem, CondChoice, CondTask, rest, cond_move}
use crossync.CondVar.Moves.{
  sleeps, active, adds_one, adds_all, wakes_all, Waits, Saw, move-Waits, move-Saw, move-Saw_other,
}

abbrev bumps : CondTask → ℕ
bumps t = t.bumps

record Watched (m : CondMem) (ts : List CondTask) : Type 0 where
  waits :
      Waits m
        (sum_by sleeps ts)
        (sum_by active ts)
        (sum_by adds_one ts)
        (sum_by adds_all ts)
        (sum_by wakes_all ts)
        (sum_by bumps ts)
  saw :
      (i : ℕ) (t : CondTask)
      → get_elem? ts i ≡ some t
      → Saw m (sum_by adds_one ts) (sum_by adds_all ts) (sum_by bumps ts) t.stage

module _ (c : CondChoice) (m : CondMem) (ts : List CondTask) (i : ℕ) (t : CondTask)
    (e : get_elem? ts i ≡ some t) (h : Watched m ts) where
  abbrev m' : CondMem
  m' = (cond_move c m t).0

  abbrev t' : CondTask
  t' = (cond_move c m t).1

  abbrev rest_of : (CondTask → ℕ) → ℕ
  rest_of w = others w ts i

  Waits-apart :
      Waits m
        (rest_of sleeps + sleeps t)
        (rest_of active + active t)
        (rest_of adds_one + adds_one t)
        (rest_of adds_all + adds_all t)
        (rest_of wakes_all + wakes_all t)
        (rest_of bumps + bumps t)
  Waits-apart =
      rw
        (
          sym (sum_by-others sleeps ts i t e),
          sym (sum_by-others active ts i t e),
          sym (sum_by-others adds_one ts i t e),
          sym (sum_by-others adds_all ts i t e),
          sym (sum_by-others wakes_all ts i t e),
          sym (sum_by-others bumps ts i t e),
        )
        h.waits

  Saw-apart :
      (j : ℕ) (u : CondTask)
      → get_elem? ts j ≡ some u
      → Saw m
          (rest_of adds_one + adds_one t)
          (rest_of adds_all + adds_all t)
          (rest_of bumps + bumps t)
          u.stage
  Saw-apart j u f =
      rw
        (
          sym (sum_by-others adds_one ts i t e),
          sym (sum_by-others adds_all ts i t e),
          sym (sum_by-others bumps ts i t e),
        )
        (h.saw j u f)

  move-Watched : Watched m' (set ts i t')
  move-Watched = record {
    waits =
        rw
          (
            sum_by-set sleeps ts i t t' e,
            sum_by-set active ts i t t' e,
            sum_by-set adds_one ts i t t' e,
            sum_by-set adds_all ts i t t' e,
            sum_by-set wakes_all ts i t t' e,
            sum_by-set bumps ts i t t' e,
          )
          (move-Waits c m t.stage t (rest_of sleeps) (rest_of active) (rest_of adds_one)
            (rest_of adds_all) (rest_of wakes_all) (rest_of bumps) refl Waits-apart
            (Saw-apart i t e));
    saw = λ j u f.
        rw
          (
            sum_by-set adds_one ts i t t' e,
            sum_by-set adds_all ts i t t' e,
            sum_by-set bumps ts i t t' e,
          )
          (elim (get_elem?-set_cases ts i j t t' u e f) [
            | inl (same, now) ↦
                subst
                  (λ u.
                    Saw m' (rest_of adds_one + adds_one t') (rest_of adds_all + adds_all t')
                      (rest_of bumps + bumps t') u.stage)
                  now
                  (move-Saw c m t.stage t (rest_of sleeps) (rest_of active) (rest_of adds_one)
                    (rest_of adds_all) (rest_of wakes_all) (rest_of bumps) refl Waits-apart
                    (Saw-apart i t e))
            | inr (ne, was) ↦
                move-Saw_other c m t.stage t (rest_of sleeps) (rest_of active) (rest_of adds_one)
                  (rest_of adds_all) (rest_of wakes_all) (rest_of bumps) refl Waits-apart u.stage
                  (Saw-apart j u was)
          ]);
  }

abbrev new_task : CondTask
new_task = record { stage = rest; bumps = 0 }

-- `SCondVar::new`, shared by a number of threads.
abbrev pub cond_start : ℕ → System CondMem CondTask
cond_start n = record {
  mem = record { futex = 0; waiters = 0; to_wake = 0; queue = record { waiting = 0; woken = 0 } };
  threads = replicate n new_task;
}

module _ (n : ℕ) (sched : List (ℕ × CondChoice)) where
  run-Watched :
      Watched (run cond_move sched (cond_start n)).mem (run cond_move sched (cond_start n)).threads
  run-Watched = run_inv cond_move Watched move-Watched sched (cond_start n) (record {
    waits = ground (
      arith,
      sum_by-replicate sleeps n new_task refl,
      sum_by-replicate active n new_task refl,
      sum_by-replicate adds_one n new_task refl,
      sum_by-replicate adds_all n new_task refl,
      sum_by-replicate wakes_all n new_task refl,
      sum_by-replicate bumps n new_task refl,
    );
    saw = λ i t e.
        subst
          (λ t.
            Saw (cond_start n).mem (sum_by adds_one (replicate n new_task))
              (sum_by adds_all (replicate n new_task)) (sum_by bumps (replicate n new_task))
              t.stage)
          (eq_of_get_elem?-replicate n i new_task e) tt;
  })

  -- Any number of threads share a condition variable. In every interleaving in which the futex has
  -- changed less than 2 ^ 32 times, if there is a token and a thread is asleep, then a thread is woken
  -- and about to return from its wait, or is in the loop of `wait` and about to look for the token, or
  -- a notification is on the way to its wake: no thread sleeps for good beside a token.
  pub cond_no_lost_wakeup :
      let z = run cond_move sched (cond_start n) in
      sum_by (λ (t : CondTask). t.bumps) z.threads < 2 ^ 32
      → 0 < z.mem.to_wake
      → 0 < sum_by sleeps z.threads
      → 0
        < z.mem.queue.woken
          + sum_by active z.threads
          + sum_by adds_one z.threads
          + sum_by adds_all z.threads
          + sum_by wakes_all z.threads
  cond_no_lost_wakeup few token sleeper = ground (arith, run-Watched.waits, few, token, sleeper)
