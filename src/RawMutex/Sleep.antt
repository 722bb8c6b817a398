-- ===== src/RawMutex/Sleep.antt =====
-- core/mutex.rs: the lock behind which a writer sleeps is held, or a wake is on its way.
use mathlib.Core.Path.{subst}
use crossync.Prelude.{
  ℕ, suc, ◌+◌, ◌^◌, ◌≤◌, ◌<◌, ◌≡◌, ◌≢◌, ◌⊎◌, sym, ◌∙◌, inl, inr, arith, true, List, some, get_elem?,
  set, length, sum_by, others, sum_by-others, sum_by-set, get_elem?-set_cases, All-get,
  eq_of_get_elem?-replicate,
}
use crossync.Threads.{run, run_inv_counted}
use crossync.RawMutex.Word.{holder_bits, writers_parked}
use crossync.RawMutex.Machine.{
  Mem, Choice, Pc, idle, exclusive_check, exclusive_wait, wake_writers, call, exclusive_slow,
  shared_slow, unlock_slow, downgrade_slow, release_shared, move,
}
use crossync.RawMutex.Ownership.{reads, writes, Agrees, Knows, Inv, move-Inv, start, start-Inv}

-- About to change the writers' futex and to wake them.
abbrev pub wakes : Pc → ℕ
wakes wake_writers = 1
wakes _ = 0

-- The lock is held, and its release will wake the writers; or somebody is about to.
abbrev pub WillWake : Mem → ℕ → Type 0
WillWake m n = ((writers_parked m.state ≡ true) × (holder_bits m.state ≢ 0)) ⊎ (0 < n)

-- A writer that has looked at the futex, and one that waits for it to change.
abbrev Expects : Mem → ℕ → Pc → Type 0
Expects m n (exclusive_check w_key) = w_key ≤ m.writers_futex
Expects m n (exclusive_wait w_key) =
    (w_key ≤ m.writers_futex) × (m.writers_futex ≡ w_key → WillWake m n)
Expects m n _ = Unit

module _ (c : Choice) (m : Mem) (p : Pc) (r w n k : ℕ) (few : k + 1 < 2 ^ 32)
    (early : m.writers_futex ≤ k) (known : Knows p)
    (h : Agrees m.state (r + reads p) (w + writes p)) where
  move-early : (move c m p).0.writers_futex ≤ k + 1
  unfolding move call exclusive_slow shared_slow unlock_slow downgrade_slow release_shared
  move-early = ground (arith, few, early)

  move-Expects : Expects m (n + wakes p) p → let (m', q) = move c m p in Expects m' (n + wakes q) q
  unfolding move call exclusive_slow shared_slow unlock_slow downgrade_slow release_shared
  move-Expects e = ground (arith, few, early, known, h, e)

  -- The futex of the writers only grows.
  move-futex :
      ((move c m p).0.writers_futex ≡ m.writers_futex)
      ⊎ ((move c m p).0.writers_futex ≡ m.writers_futex + 1)
  unfolding move call exclusive_slow shared_slow unlock_slow downgrade_slow release_shared
  move-futex = ground (arith, few, early)

  move-WillWake :
      (move c m p).0.writers_futex ≡ m.writers_futex
      → WillWake m (n + wakes p)
      → WillWake (move c m p).0 (n + wakes (move c m p).1)
  unfolding move call exclusive_slow shared_slow unlock_slow downgrade_slow release_shared
  move-WillWake same e = ground (arith, few, early, known, h, same, e)

  move-Expects_other :
      (y : Pc) → Expects m (n + wakes p) y → Expects (move c m p).0 (n + wakes (move c m p).1) y
  move-Expects_other (exclusive_check w_key) e = elim move-futex [
    | inl same ↦ omega (arith, same, e)
    | inr more ↦ omega (arith, more, e)
  ]
  move-Expects_other (exclusive_wait w_key) e = elim move-futex [
    | inl same ↦ (omega (arith, same, e.0), λ now. move-WillWake same (e.1 (sym same ∙ now)))
    | inr more ↦ (omega (arith, more, e.0), λ now. absurd (omega (arith, more, now, e.0)))
  ]
  move-Expects_other y e = ground arith

record Alert (k : ℕ) (m : Mem) (ps : List Pc) : Type 0 where
  inv : Inv m ps
  early : m.writers_futex ≤ k
  expects : (i : ℕ) (p : Pc) → get_elem? ps i ≡ some p → Expects m (sum_by wakes ps) p

module _ (k : ℕ) (few : k + 1 < 2 ^ 32) (c : Choice) (m : Mem) (ps : List Pc) (i : ℕ) (p : Pc)
    (e : get_elem? ps i ≡ some p) (h : Alert k m ps) where
  Agrees-apart : Agrees m.state (others reads ps i + reads p) (others writes ps i + writes p)
  Agrees-apart =
      rw (sym (sum_by-others reads ps i p e), sym (sum_by-others writes ps i p e)) h.inv.agrees

  Expects-apart :
      (j : ℕ) (q : Pc) → get_elem? ps j ≡ some q → Expects m (others wakes ps i + wakes p) q
  Expects-apart j q f = rw (sym (sum_by-others wakes ps i p e)) (h.expects j q f)

  move-Alert : Alert (suc k) (move c m p).0 (set ps i (move c m p).1)
  move-Alert =
      let known = All-get Knows ps i h.inv.knows e in
      let q = (move c m p).1 in
      record {
        inv = move-Inv c m ps i p e h.inv;
        early = omega (
          arith,
          move-early c m p (others reads ps i) (others writes ps i) (others wakes ps i) k few
              h.early known Agrees-apart,
        );
        expects = λ j u f.
            rw (sum_by-set wakes ps i p q e) (elim (get_elem?-set_cases ps i j p q u e f) [
              | inl (same, now) ↦ subst (Expects (move c m p).0 (others wakes ps i + wakes q)) now (
                  move-Expects c m p (others reads ps i) (others writes ps i) (others wakes ps i) k
                    few h.early known Agrees-apart (Expects-apart i p e))
              | inr (ne, was) ↦
                  move-Expects_other c m p (others reads ps i) (others writes ps i)
                    (others wakes ps i) k few h.early known Agrees-apart u (Expects-apart j u was)
            ]);
      }

run-Alert :
    (n : ℕ) (sched : List (ℕ × Choice))
    → length sched < 2 ^ 32
    → Alert (0 + length sched) (run move sched (start n)).mem (run move sched (start n)).threads
run-Alert n sched few =
    run_inv_counted move (λ k m ps. k < 2 ^ 32 → Alert k m ps)
      (λ k c m ps i p e h lt. move-Alert k (omega (arith, lt)) c m ps i p e (h (omega (arith, lt))))
      (λ k m ps h lt.
        let was = h (omega (arith, lt)) in
        record { inv = was.inv; early = omega (arith, was.early); expects = was.expects })
      0 sched (start n)
      (λ _. record {
        inv = start-Inv n;
        early = omega arith;
        expects = λ i p e.
            subst (Expects (start n).mem (sum_by wakes (start n).threads))
              (eq_of_get_elem?-replicate n i idle e) tt;
      })
      (omega (arith, few))

-- In every interleaving of less than 2 ^ 32 accesses, if a thread waits on the writers' futex, and the
-- futex has still the value that it read, then the lock is held and the flag that makes its release
-- wake the writers is set, or a thread is about to change the futex and to wake them.
pub writer_no_lost_wakeup :
    (n : ℕ) (sched : List (ℕ × Choice)) (i w_key : ℕ)
    → length sched < 2 ^ 32
    → let z = run move sched (start n) in
      get_elem? z.threads i ≡ some (exclusive_wait w_key)
      → z.mem.writers_futex ≡ w_key
      → ((writers_parked z.mem.state ≡ true) × (holder_bits z.mem.state ≢ 0))
        ⊎ (0 < sum_by wakes z.threads)
writer_no_lost_wakeup n sched i w_key few e same =
    ((run-Alert n sched few).expects i (exclusive_wait w_key) e).1 same
