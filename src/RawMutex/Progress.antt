-- ===== src/RawMutex/Progress.antt =====
-- core/mutex.rs: who may take the lock, who is woken by a release, and what a thread alone achieves.
use mathlib.Core.Path.{subst}
use crossync.Prelude.{
  ℕ, zero, suc, ◌+◌, ◌%◌, ◌≡◌, refl, sym, arith, Bool, if◌then◌else◌, true, false, ◌⊎◌, inl, inr,
}
use crossync.Threads.{solo}
use crossync.RawMutex.Word.{
  holder_bits, one_writer, one_reader, admits_reader, readers_parked, writers_parked,
  is_writer_locked, readers_count,
}
use crossync.RawMutex.Machine.{
  Mem, stay, Choice, Pc, idle, exclusive, shared, exclusive_cas, exclusive_load, exclusive_loop,
  exclusive_key, exclusive_check, exclusive_wait, shared_fast_load, shared_fast_cas, shared_load,
  shared_loop, shared_key, shared_check, shared_wait, wake_writers, wake_readers, call,
  exclusive_slow, shared_slow, unlock_slow, downgrade_slow, release_shared, move,
}
use crossync.RawMutex.Ownership.{reads, writes, Knows}

-- A thread that holds nothing, and whose locals come from its own loads, comes to read only in a
-- word without a writer and without a parked writer, and then the count of readers goes up by one.
pub reader_admission :
    (c : Choice) (m : Mem) (p : Pc)
    → Knows p
    → reads p + writes p ≡ 0
    → reads (move c m p).1 ≡ 1
    → (is_writer_locked m.state ≡ false)
      × (writers_parked m.state ≡ false)
      × (readers_count (move c m p).0.state ≡ readers_count m.state + 1)
unfolding move call exclusive_slow shared_slow unlock_slow downgrade_slow release_shared
reader_admission c m idle k h e = ground arith
reader_admission c m p k h e = ground arith

-- A thread that gives the writer's lock up for good, on the fast path or on the slow one, goes on to
-- wake the parked writers if there are any, else the parked readers if there are any; the parked
-- flags stay for the writers, and the word is clear else.
pub release_wakes :
    (c : Choice) (m : Mem) (p : Pc)
    → writes p ≡ 1
    → holder_bits m.state ≡ one_writer
    → reads (move c m p).1 + writes (move c m p).1 ≡ 0
    → ((move c m p).1 ≡ (
        if writers_parked m.state
        then wake_writers
        else if readers_parked m.state
        then wake_readers false
        else idle))
      × ((move c m p).0.state ≡ (if writers_parked m.state then m.state % 4 else 0))
unfolding move call exclusive_slow shared_slow unlock_slow downgrade_slow release_shared
release_wakes c m idle h b e = ground arith
release_wakes c m p h b e = ground arith

-- The points of `lock_exclusive`.
abbrev pub wants_exclusive : Pc → Bool
wants_exclusive exclusive_cas = true
wants_exclusive exclusive_load = true
wants_exclusive (exclusive_loop _) = true
wants_exclusive exclusive_key = true
wants_exclusive (exclusive_check _) = true
wants_exclusive (exclusive_wait _) = true
wants_exclusive _ = false

abbrev pub alone : Choice
alone = record { op = stay; spurious = false; completed = true }

-- A thread that holds the lock and makes no call keeps it.
solo-exclusive : (n : ℕ) (m : Mem) → (solo move n alone (m, exclusive)).1 ≡ exclusive
unfolding move call
solo-exclusive zero m = refl
solo-exclusive (suc n) m = solo-exclusive n m

module _ (m : Mem) (free : holder_bits m.state ≡ 0) (n : ℕ) where
  solo-loop_fresh : (solo move (suc n) alone (m, exclusive_loop m.state)).1 ≡ exclusive
  unfolding move exclusive_slow
  solo-loop_fresh = ground (arith, solo-exclusive n (record m { state = m.state % 2 + one_writer }))

module _ (m : Mem) (free : holder_bits m.state ≡ 0) where
  solo-load : (n : ℕ) → (solo move (suc (suc n)) alone (m, exclusive_load)).1 ≡ exclusive
  unfolding move
  solo-load n = solo-loop_fresh m free n

  solo-key : (solo move 4 alone (m, exclusive_key)).1 ≡ exclusive
  unfolding move
  solo-key = ground (arith, solo-load 0)

  solo-loop : (state : ℕ) → (solo move 5 alone (m, exclusive_loop state)).1 ≡ exclusive
  unfolding move exclusive_slow
  solo-loop state = ground (
    arith,
    solo-exclusive 4 (record m { state = state % 2 + one_writer }),
    solo-loop_fresh m free 3,
    solo-key,
  )

-- From whatever point of `lock_exclusive`, with stale locals or parked, a thread that is left alone
-- acquires a lock that nobody holds within five accesses, if no compare-exchange fails without
-- cause, its backoff is completed and its futex wait returns.
pub exclusive_progress :
    (m : Mem) (p : Pc)
    → holder_bits m.state ≡ 0
    → wants_exclusive p ≡ true
    → (solo move 5 alone (m, p)).1 ≡ exclusive
unfolding move
exclusive_progress m exclusive_cas free w =
    ground (arith, solo-exclusive 4 (record m { state = one_writer }), solo-load m free 2)
exclusive_progress m exclusive_load free w = solo-load m free 3
exclusive_progress m (exclusive_loop state) free w = solo-loop m free state
exclusive_progress m exclusive_key free w = ground (arith, solo-load m free 1)
exclusive_progress m (exclusive_check k) free w = ground (arith, solo-load m free 2)
exclusive_progress m (exclusive_wait k) free w = solo-key m free
exclusive_progress m p free w = ground arith

-- The points of `lock_shared`.
abbrev pub wants_shared : Pc → Bool
wants_shared (shared_fast_load blocking) = blocking
wants_shared (shared_fast_cas blocking _) = blocking
wants_shared shared_load = true
wants_shared (shared_loop _) = true
wants_shared shared_key = true
wants_shared (shared_check _) = true
wants_shared (shared_wait _) = true
wants_shared _ = false

solo-shared : (n : ℕ) (m : Mem) → (solo move n alone (m, shared)).1 ≡ shared
unfolding move call
solo-shared zero m = refl
solo-shared (suc n) m = solo-shared n m

module _ (m : Mem) (admits : admits_reader m.state ≡ true) where
  solo-shared_load : (n : ℕ) → (solo move (suc (suc n)) alone (m, shared_load)).1 ≡ shared
  unfolding move shared_slow
  solo-shared_load n = ground (arith, solo-shared n (record m { state = m.state + one_reader }))

  solo-shared_key : (solo move 4 alone (m, shared_key)).1 ≡ shared
  unfolding move
  solo-shared_key = ground (arith, solo-shared_load 0)

  -- One access of the slow loop on the word last seen, in a lock that admits a reader.
  slow_step :
      (state : ℕ)
      → ((shared_slow alone m state).1 ≡ shared)
        ⊎ (shared_slow alone m state ≡ (m, shared_load))
        ⊎ (shared_slow alone m state ≡ (m, shared_key))
  unfolding shared_slow
  slow_step state = ground arith

  after_step :
      (s : Mem × Pc)
      → (s.1 ≡ shared) ⊎ (s ≡ (m, shared_load)) ⊎ (s ≡ (m, shared_key))
      → (solo move 4 alone s).1 ≡ shared
  after_step (m', p) (inl e) =
      subst (λ q. (solo move 4 alone (m', q)).1 ≡ shared) (sym e) (solo-shared 4 m')
  after_step s (inr (inl e)) =
      subst (λ t. (solo move 4 alone t).1 ≡ shared) (sym e) (solo-shared_load 2)
  after_step s (inr (inr e)) = subst (λ t. (solo move 4 alone t).1 ≡ shared) (sym e) solo-shared_key

  solo-shared_loop : (state : ℕ) → (solo move 5 alone (m, shared_loop state)).1 ≡ shared
  unfolding move
  solo-shared_loop state = after_step (shared_slow alone m state) (slow_step state)

-- From whatever point of `lock_shared`, a thread that is left alone acquires a lock that admits a
-- reader within five accesses, under the same conditions.
pub shared_progress :
    (m : Mem) (p : Pc)
    → admits_reader m.state ≡ true
    → wants_shared p ≡ true
    → (solo move 5 alone (m, p)).1 ≡ shared
unfolding move
shared_progress m shared_load admits w = solo-shared_load m admits 3
shared_progress m (shared_loop state) admits w = solo-shared_loop m admits state
shared_progress m shared_key admits w = ground (arith, solo-shared_load m admits 1)
shared_progress m (shared_check k) admits w = ground (arith, solo-shared_load m admits 2)
shared_progress m (shared_wait k) admits w = solo-shared_load m admits 2
shared_progress m (shared_fast_load true) admits w =
    ground (arith, solo-shared 3 (record m { state = m.state + one_reader }))
shared_progress m (shared_fast_cas true state) admits w =
    ground
      (arith, solo-shared 4 (record m { state = state + one_reader }), solo-shared_load m admits 2)
shared_progress m p admits w = ground arith
