-- ===== src/Array/Bounds.antt =====
-- atomic/array.rs: no thread works outside the storage that is installed, under the `RawMutex` of
-- core/mutex.rs.
use mathlib.Core.Path.{subst}
use crossync.Prelude.{
  ℕ, ◌+◌, ◌^◌, ◌≤◌, ◌<◌, ◌≡◌, refl, sym, ap, ◌∙◌, arith, Option, none, some, List, [], ◌∷◌, map,
  get_elem?, get_elem?-map, eq_of_get_elem?-replicate, sum_by, sum_by-congr, sum_by-zero,
}
use crossync.Threads.{System, run, run_inv}
use crossync.RawMutex.Machine.{new, Pc}
use crossync.RawMutex.Machine
use crossync.RawMutex.Ownership.{start, start-Inv, Inv}
use crossync.RawMutex.Guards.{raw_lock, raw_place, raw_lock-IsLawful}
use crossync.Array.Storage.{
  Store, Work, write_value, add_len, store_state, slot_wait, slot_lock, slot_use, slot_unlock, idle,
  working, StorageMem, StorageTask, StorageChoice, storage_move,
}
use crossync.Array.Pins.{mid, uncounted, Knows}
use crossync.Array.Places.{Local}
use crossync.Array.Pinned.{coords, uncounted_of, Pinned, step-Pinned}

-- The slot that a thread works on, with the storage in which it found it.
abbrev pub work_slot : Work → Option (ℕ × ℕ)
work_slot (write_value s tail) = some (s, tail)
work_slot (add_len s tail) = some (s, tail)
work_slot (store_state s tail) = some (s, tail)
work_slot (slot_wait s target _) = some (s, target)
work_slot (slot_lock s target _) = some (s, target)
work_slot (slot_use s target _) = some (s, target)
work_slot (slot_unlock s target _) = some (s, target)
work_slot _ = none

-- `AtomicArray::with_capacity`, shared by a number of threads.
abbrev pub storage_start : ℕ → ℕ → System (StorageMem raw_lock) (StorageTask raw_lock)
storage_start capacity n = record {
  mem = record {
    coord = new;
    store = record { storage = 0; capacity = capacity; head = 0; tail = 0; len = 0 };
  };
  threads = map (λ p. record { coord = p; stage = idle }) (start n).threads;
}

work_slot-Knows :
    (m : Store) (w : Work) (s target : ℕ)
    → Knows m w
    → work_slot w ≡ some (s, target)
    → (s ≡ m.storage) × (target < m.capacity)
work_slot-Knows m w s target k e = ground (arith, k, e)

module _ (capacity n : ℕ) (size : capacity < 2 ^ 64)
    (sched : List (ℕ × StorageChoice raw_lock)) where
  started :
      (i : ℕ) (t : StorageTask raw_lock)
      → get_elem? (storage_start capacity n).threads i ≡ some t
      → record { coord = Machine.idle; stage = idle } ≡ t
  started i t e =
      let (p, was, now) =
        get_elem?-map (λ p. record { coord = p; stage = idle }) (start n).threads i t e in
      ap (λ p. record { coord = p; stage = idle }) (eq_of_get_elem?-replicate n i Machine.idle was)
      ∙ now

  run-Pinned :
      Pinned raw_lock Inv raw_lock-IsLawful
        (run (storage_move raw_lock) sched (storage_start capacity n)).mem
        (run (storage_move raw_lock) sched (storage_start capacity n)).threads
  run-Pinned =
      run_inv (storage_move raw_lock) (Pinned raw_lock Inv raw_lock-IsLawful)
        (λ c m ts i t e h. step-Pinned raw_lock Inv raw_lock-IsLawful c m ts i t e h t.stage refl)
        sched (storage_start capacity n)
        (record {
          lawful = subst (Inv new) (sym (same_coords (start n).threads)) (start-Inv n);
          steady = λ i t e.
              subst (λ t. Local (storage_start capacity n).mem.store (raw_place t.coord) t.stage)
                (started i t e) refl;
          settled = λ _. ground (
            arith,
            size,
            sum_by-congr (uncounted_of raw_lock Inv raw_lock-IsLawful) (λ _. 0)
                (storage_start capacity n).threads
                (λ i t e. ap (λ t. uncounted t.stage) (sym (started i t e))),
            sum_by-zero (storage_start capacity n).threads,
          );
        })
    where
      same_coords :
          (ps : List Pc)
          → coords raw_lock Inv raw_lock-IsLawful (map (λ p. record { coord = p; stage = idle }) ps)
            ≡ ps
      same_coords [] = refl
      same_coords (p ∷ ps) = ap (λ l. p ∷ l) (same_coords ps)

  -- Any number of threads call push, get, get_mut, the loops, as_vec and reset_with on an array. In
  -- every interleaving of their accesses and those of the coordination lock, a thread that works on a
  -- slot, from its claim by a push or its wait for the value up to the release of the slot, found it
  -- in the storage that is still installed, and its index is below the capacity.
  pub storage_pinned :
      (i : ℕ) (t : StorageTask raw_lock) (w : Work) (s target : ℕ)
      → let z = run (storage_move raw_lock) sched (storage_start capacity n) in
        get_elem? z.threads i ≡ some t
        → t.stage ≡ working w
        → work_slot w ≡ some (s, target)
        → (s ≡ z.mem.store.storage) × (target < z.mem.store.capacity)
  storage_pinned i t w s target e at_work slot =
      let z = run (storage_move raw_lock) sched (storage_start capacity n) in
      work_slot-Knows z.mem.store w s target
        (subst (Local z.mem.store (raw_place t.coord)) at_work (run-Pinned.steady i t e)).1 slot

  -- Under the same conditions, while no thread is in the middle of an exchange, the head is 0, the tail
  -- is the length and the slots that pushes have claimed and not counted, and is within the capacity.
  pub storage_settled :
      let z = run (storage_move raw_lock) sched (storage_start capacity n) in
      sum_by (λ (t : StorageTask raw_lock). mid t.stage) z.threads ≡ 0
      → (z.mem.store.head ≡ 0)
        × (z.mem.store.len + sum_by (λ (t : StorageTask raw_lock). uncounted t.stage) z.threads
            ≡ z.mem.store.tail)
        × (z.mem.store.tail ≤ z.mem.store.capacity)
  storage_settled none_mid = let h = run-Pinned.settled none_mid in (h.first, h.counted, h.within)
