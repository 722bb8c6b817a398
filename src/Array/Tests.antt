-- ===== src/Array/Tests.antt =====
-- atomic/array.rs: two pushes that compete for a slot, and the theorems there.
use crossync.Prelude.{
  ℕ, ◌+◌, ◌≤◌, ◌<◌, ◌≡◌, ◌⊎◌, refl, arith, true, false, Option, none, some, List, ◌∷◌, ◌++◌,
  get_elem?, replicate, sum_by, ltb, if◌then◌else◌,
}
use crossync.Threads.{run}
use crossync.RawMutex.Machine as RawMachine
use crossync.RawMutex.Machine.{Choice, call, release_shared, move}
use crossync.RawMutex.Guards.{raw_lock}
use crossync.Array.Storage.{
  StorageCall, call_reset, StorageChoice, StorageTask, store_step, storage_move, working,
}
use crossync.Array.Storage
use crossync.Array.Pins
use crossync.Array.Bounds.{storage_start, storage_pinned, storage_settled}
use crossync.Array.Machine.{
  ArrayOp, call_push, call_get, stay, ArrayPc, rejected, array_call, array_move,
}
use crossync.Array.Slots.{uncounted, claims, has, array_start, array_slots_exact, array_get_waits}

-- Thread 0 takes the only slot, for which thread 1 has asked too, and has counted it; thread 1
-- comes too late, and thread 2 waits for the value.
abbrev contested : List (ℕ × ArrayOp ℕ)
contested =
    (0, call_push 5) ∷ (1, call_push 6) ∷ (0, stay) ∷ (1, stay) ∷ replicate 3 (0, stay)
    ++ (replicate 2 (1, stay) ++ ((2, call_get 0) ∷ replicate 3 (2, stay)))

contested_result :
    (threads : List (ArrayPc ℕ)) × ((run array_move contested (array_start 1 3)).threads ≡ threads)
    × (get_elem? threads 1 ≡ some (rejected 6))
unfolding array_move array_call
contested_result = (_, refl, refl)

array_slots_exact_example :
    let s = run array_move contested (array_start 1 3) in
    (s.mem.len + sum_by uncounted s.threads ≡ s.mem.tail)
    × (s.mem.tail ≤ s.mem.capacity)
    × ((p : ℕ)
        → (sum_by (claims p) s.threads + (s.mem.slots p).state
            ≡ (if ltb p s.mem.tail then 1 else 0))
          × ((s.mem.slots p).state ≡ 1 → has (s.mem.slots p).value ≡ true))
array_slots_exact_example = array_slots_exact 1 3 (omega arith) contested

array_get_waits_example :
    let s = run array_move contested (array_start 1 3) in
    (((s.mem.slots 0).state ≡ 1) × (has (s.mem.slots 0).value ≡ true))
    ⊎ (sum_by (claims 0) s.threads ≡ 1)
unfolding array_move array_call
array_get_waits_example = array_get_waits 1 3 (omega arith) contested 2 0 refl

abbrev lock_choice : Choice
lock_choice = record { op = RawMachine.stay; spurious = false; completed = true }

abbrev asks_storage : Option StorageCall → StorageChoice raw_lock
asks_storage call = record { coord = lock_choice; call = call; ready = true }

-- Thread 0 pushes, and thread 1 then resets the array to 4 slots and begins to read its third.
abbrev exchanged : List (ℕ × StorageChoice raw_lock)
exchanged =
    (0, asks_storage (some Storage.call_push)) ∷ replicate 11 (0, asks_storage none)
    ++ ((1, asks_storage (some (call_reset 4))) ∷ replicate 9 (1, asks_storage none))
    ++ ((1, asks_storage (some (Storage.call_get 2))) ∷ replicate 5 (1, asks_storage none))

exchanged_result :
    (run (storage_move raw_lock) exchanged (storage_start 2 2)).mem.store
    ≡ record { storage = 1; capacity = 4; head = 0; tail = 4; len = 4 }
unfolding store_step move call release_shared
exchanged_result = refl

storage_pinned_example : ◌≡◌ {A = ℕ} 1 1 × (2 < 4)
unfolding store_step move call release_shared
storage_pinned_example =
    storage_pinned 2 2 (omega arith) exchanged 1
      (record { coord = RawMachine.shared; stage = working (Storage.slot_wait 1 2 Storage.finish) })
      (Storage.slot_wait 1 2 Storage.finish) 1 2 refl refl refl

storage_settled_example :
    let z = run (storage_move raw_lock) exchanged (storage_start 2 2) in
    (z.mem.store.head ≡ 0)
    × (z.mem.store.len + sum_by (λ (t : StorageTask raw_lock). Pins.uncounted t.stage) z.threads
        ≡ z.mem.store.tail)
    × (z.mem.store.tail ≤ z.mem.store.capacity)
unfolding store_step move call release_shared
storage_settled_example = storage_settled 2 2 (omega arith) exchanged refl
