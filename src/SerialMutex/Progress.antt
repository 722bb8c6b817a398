-- ===== src/SerialMutex/Progress.antt =====
-- core/serial.rs: the lock on which a thread sleeps is held, or a wake is on its way.
use mathlib.Core.Path.{subst}
use native.Mathlib.Decide.{ℕ_discrete}
use crossync.Prelude.{
  ℕ, suc, ◌+◌, ◌^◌, ◌<◌, ◌≡◌, ◌⊎◌, refl, sym, inl, inr, ◌∙◌, arith, true, List, some, get_elem?,
  set, length, sum_by, others, sum_by-others, sum_by-set, get_elem?-set_cases, All, All-get,
  sum_by-congr, sum_by-zero, get_elem?-map,
}
use crossync.Threads.{run, run_inv_counted}
use crossync.SerialMutex.Machine.{
  SerialMem, SerialChoice, Task, idle, owner_of, wait_bit, serial_move, serial_step,
}
use crossync.SerialMutex.Owner.{share_of, Owns, Identified, Ledger, own_book, move-Ledger}
use crossync.SerialMutex.Exclusion.{serial_start, start-Ledger}
use crossync.SerialMutex.Wakeups.{
  notifies, wakes, sleeps, Sleeps, Parked, step-Sleeps, step-Parked, step-Parked_other,
}

record Restful (k : ℕ) (m : SerialMem) (ts : List Task) : Type 0 where
  ledger : Ledger m ts
  sleeping : Sleeps k m (sum_by sleeps ts) (sum_by notifies ts) (sum_by wakes ts)
  parked : (i : ℕ) (t : Task) → get_elem? ts i ≡ some t → Parked m (sum_by notifies ts) t.stage

module _ (k : ℕ) (few : k + 1 < 2 ^ 32) (c : SerialChoice) (m : SerialMem) (ts : List Task) (i : ℕ)
    (t : Task) (e : get_elem? ts i ≡ some t) (h : Restful k m ts) where
  abbrev m' : SerialMem
  m' = (serial_step c t.owner m t.stage).0

  abbrev t' : Task
  t' = record t { stage = (serial_step c t.owner m t.stage).1 }

  abbrev rest_of : (Task → ℕ) → ℕ
  rest_of w = others w ts i

  Sleeps-apart :
      Sleeps k m
        (rest_of sleeps + sleeps t)
        (rest_of notifies + notifies t)
        (rest_of wakes + wakes t)
  Sleeps-apart =
      rw
        (
          sym (sum_by-others sleeps ts i t e),
          sym (sum_by-others notifies ts i t e),
          sym (sum_by-others wakes ts i t e),
        )
        h.sleeping

  Parked-apart :
      (j : ℕ) (u : Task)
      → get_elem? ts j ≡ some u
      → Parked m (rest_of notifies + notifies t) u.stage
  Parked-apart j u f = rw (sym (sum_by-others notifies ts i t e)) (h.parked j u f)

  move-Restful : Restful (suc k) m' (set ts i t')
  move-Restful =
      let known = All-get Identified ts i h.ledger.knows e in
      let own = own_book c m ts i t.owner t.stage e h.ledger in
      record {
        ledger = move-Ledger c m ts i t.owner t.stage e h.ledger;
        sleeping =
            rw
              (
                sum_by-set sleeps ts i t t' e,
                sum_by-set notifies ts i t t' e,
                sum_by-set wakes ts i t t' e,
              )
              (subst
                (λ n.
                  Sleeps n m' (rest_of sleeps + sleeps t') (rest_of notifies + notifies t')
                    (rest_of wakes + wakes t'))
                (omega arith)
                (step-Sleeps c t.owner m t.stage (others (share_of t.owner) ts i) k (rest_of sleeps)
                  (rest_of notifies) (rest_of wakes) few known.0 known.1 own Sleeps-apart
                  (Parked-apart i t e)));
        parked = λ j u f.
            rw (sum_by-set notifies ts i t t' e) (elim (get_elem?-set_cases ts i j t t' u e f) [
              | inl (same, now) ↦
                  subst (λ u. Parked m' (rest_of notifies + notifies t') u.stage) now
                    (step-Parked c t.owner m t.stage (others (share_of t.owner) ts i) k
                      (rest_of sleeps) (rest_of notifies) (rest_of wakes) few known.0 known.1 own
                      Sleeps-apart (Parked-apart i t e))
              | inr (ne, was) ↦
                  step-Parked_other c t.owner m t.stage (others (share_of t.owner) ts i) k
                    (rest_of sleeps) (rest_of notifies) (rest_of wakes) few known.0 known.1 own
                    Sleeps-apart u.stage (Parked-apart j u was)
            ]);
      }

start-Restful :
    (owners : List ℕ)
    → All (λ o. 0 < o) owners
    → Restful 0 (serial_start owners).mem (serial_start owners).threads
start-Restful owners ids = record {
  ledger = start-Ledger owners ids;
  sleeping =
      ground (
        arith,
        none_of sleeps (λ o. refl),
        none_of notifies (λ o. refl),
        none_of wakes (λ o. refl),
      );
  parked = λ i t e.
      let (o, was, now) = get_elem?-map (λ o. record { owner = o; stage = idle }) owners i t e in
      subst
        (λ t.
          Parked (serial_start owners).mem (sum_by notifies (serial_start owners).threads) t.stage)
        now tt;
}
  where
    none_of :
        (w : Task → ℕ)
        → ((o : ℕ) → w (record { owner = o; stage = idle }) ≡ 0)
        → sum_by w (serial_start owners).threads ≡ 0
    none_of w zero_at =
        sum_by-congr w (λ _. 0) (serial_start owners).threads
          (λ i t e.
            let (o, was, now) =
              get_elem?-map (λ o. record { owner = o; stage = idle }) owners i t e in
            subst (λ t. w t ≡ 0) now (zero_at o))
        ∙ sum_by-zero (serial_start owners).threads

run-Restful :
    (owners : List ℕ) (sched : List (ℕ × SerialChoice))
    → All (λ o. 0 < o) owners
    → length sched < 2 ^ 32
    → Restful
        (length sched)
        (run serial_move sched (serial_start owners)).mem
        (run serial_move sched (serial_start owners)).threads
unfolding serial_move
run-Restful owners sched ids few =
    subst
      (λ n.
        n < 2 ^ 32
        → Restful n (run serial_move sched (serial_start owners)).mem
            (run serial_move sched (serial_start owners)).threads)
      (let e : 0 + length sched ≡ length sched = omega arith in e)
      (run_inv_counted serial_move (λ k m ts. k < 2 ^ 32 → Restful k m ts)
        (λ k c m ts i t e h lt.
          move-Restful k (omega (arith, lt)) c m ts i t e (h (omega (arith, lt))))
        (λ k m ts h lt.
          let was = h (omega (arith, lt)) in
          record {
            ledger = was.ledger;
            sleeping = ground (arith, was.sleeping);
            parked = was.parked;
          })
        0 sched (serial_start owners) (λ _. start-Restful owners ids))
      few

-- Threads with positive ids acquire and release a `SerialMutex`. In every interleaving of less than
-- 2 ^ 32 accesses, if an acquisition sleeps, then one that sleeps is woken and about to return from its
-- wait, or a release is about to wake all, or the lock is held by an acquisition of some thread and the
-- bit that makes its release wake all is set.
pub serial_no_lost_wakeup :
    (owners : List ℕ) (sched : List (ℕ × SerialChoice))
    → All (λ o. 0 < o) owners
    → length sched < 2 ^ 32
    → let z = run serial_move sched (serial_start owners) in
      0 < sum_by sleeps z.threads
      → (0 < z.mem.queue.woken + sum_by notifies z.threads + sum_by wakes z.threads)
        ⊎ ((wait_bit z.mem.state ≡ true) × (o : ℕ) × (0 < o) × (0 < sum_by (share_of o) z.threads))
serial_no_lost_wakeup owners sched ids few sleeper =
    let z = run serial_move sched (serial_start owners) in
    let h = run-Restful owners sched ids few in
    woken_or_held z.mem (sum_by sleeps z.threads) (sum_by notifies z.threads)
      (sum_by wakes z.threads) (λ o. sum_by (share_of o) z.threads) (length sched) h.sleeping
      h.ledger.books sleeper
  where
    woken_or_held :
        (m : SerialMem) (s n w : ℕ) (shares : ℕ → ℕ) (k : ℕ)
        → Sleeps k m s n w
        → ((o : ℕ) → 0 < o → Owns o m.state (shares o))
        → 0 < s
        → (0 < m.queue.woken + n + w)
          ⊎ ((wait_bit m.state ≡ true) × (o : ℕ) × (0 < o) × (0 < shares o))
    woken_or_held m s n w shares k h books some_sleep = elim (ℕ_discrete m.queue.waiting 0) [
      | yes none_waits ↦ inl (omega (arith, h.queued, none_waits, some_sleep))
      | no waits ↦ elim (h.flagged (omega (arith, waits))) [
        | inr coming ↦ inl (omega (arith, coming))
        | inl flag ↦
            let pos : 0 < owner_of m.state = h.owned (ground (arith, flag)) in
            inr (flag, owner_of m.state, pos, ground (arith, flag, books (owner_of m.state) pos))
      ]
    ]
