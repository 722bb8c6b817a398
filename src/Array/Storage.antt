-- ===== src/Array/Storage.antt =====
-- atomic/array.rs: the calls of an `AtomicArray` with the lock `coord_lock` that pins its storage, one
-- access to shared memory at a time. `reset_with` exchanges the storage, which is a number here. Left
-- open to the schedule: what a thread calls, how long it waits for a slot to be written and for the
-- lock of a slot, how long it has a guard on a slot, and whether it has one when it resets.
use crossync.Prelude.{
  ℕ, ◌+◌, ◌%◌, ◌^◌, Bool, true, false, not, ◌&&◌, ltb, ◌==◌, if◌then◌else◌, Option, none, some,
}
use crossync.Guarded.Lock.{
  shared, try_exclusive, Request, acquire, release, proceed, Place, out, inside, Lock,
}

-- The storage with its capacity, and the counters of `InnerArray`.
pub record Store : Type 0 where
  pub storage : ℕ
  pub capacity : ℕ
  pub head : ℕ
  pub tail : ℕ
  pub len : ℕ

-- `call_get` is `get` and `get_mut`, `call_for_each` is `for_each` and `for_each_mut`.
pub data StorageCall : Type 0 where
  call_push call_for_each call_as_vec call_capacity : StorageCall
  call_get : (index : ℕ) → StorageCall
  call_reset : (new_cap : ℕ) → StorageCall

-- What follows the work on a slot: the end of `get`, or the next index of a loop.
pub data Onward : Type 0 where
  finish : Onward
  go_on : (checked : Bool) (head len index : ℕ) → Onward

-- What a thread does with the lock: `storage` is the one that it found, `checked` whether the loop is
-- that of `as_vec`.
pub data Work : Type 0 where
  push_load : (storage : ℕ) → Work  -- `push`, this and the next
  push_cas : (storage tail : ℕ) → Work
  slow_load : (storage : ℕ) → Work  -- `push_slow`, this and the next
  slow_cas : (storage tail : ℕ) → Work
  write_value : (storage tail : ℕ) → Work  -- both, from here to `store_state`
  add_len : (storage tail : ℕ) → Work
  store_state : (storage tail : ℕ) → Work
  get_len : (storage index : ℕ) → Work  -- `get`, this and the next
  get_head : (storage index : ℕ) → Work
  walk_len : (storage : ℕ) (checked : Bool) → Work  -- the loops, from here to `walk_next`
  walk_head : (storage : ℕ) (checked : Bool) (len : ℕ) → Work
  walk_next : (storage : ℕ) (checked : Bool) (head len index : ℕ) → Work
  slot_wait : (storage target : ℕ) (onward : Onward) → Work  -- `wait_write`, the lock and the guard
  slot_lock : (storage target : ℕ) (onward : Onward) → Work
  slot_use : (storage target : ℕ) (onward : Onward) → Work
  slot_unlock : (storage target : ℕ) (onward : Onward) → Work
  reset_look : (new_cap : ℕ) → Work  -- `reset_with`, from here to `swap_len`
  swap_storage : (new_cap : ℕ) → Work
  swap_head : (new_cap : ℕ) → Work
  swap_tail : (new_cap : ℕ) → Work
  swap_len : (new_cap : ℕ) → Work

pub data StorageStage : Type 0 where
  idle : StorageStage
  entering : StorageCall → StorageStage  -- `ArrayCoordGuard::shared`
  working : Work → StorageStage
  leaving : StorageStage  -- the drop of a guard of the lock
  reset_try : (new_cap : ℕ) → StorageStage  -- `try_exclusive_guard`
  reset_enter : (new_cap : ℕ) → StorageStage  -- `inspect`, this and the next
  reset_leave : (new_cap : ℕ) → StorageStage

-- `slot_unlock`, and what comes after it.
abbrev after_slot : ℕ → Onward → StorageStage
after_slot storage finish = leaving
after_slot storage (go_on checked head len index) =
    working (walk_next storage checked head len index)

-- One access with the lock; `ready` ends a wait, and says that a resetting thread has no guard.
unfoldable pub store_step : Bool → Store → Work → Store × StorageStage
store_step ready m (push_load s) =
    (m, if ltb m.tail m.capacity then working (push_cas s m.tail) else leaving)
store_step ready m (push_cas s tail) =
    if m.tail == tail
    then (record m { tail = tail + 1 }, working (write_value s tail))
    else (m, working (slow_load s))
store_step ready m (slow_load s) = (m, working (slow_cas s m.tail))
store_step ready m (slow_cas s tail) =
    if ltb tail m.capacity
    then (if m.tail == tail
        then (record m { tail = tail + 1 }, working (write_value s tail))
        else (m, working (slow_cas s m.tail)))
    else (m, leaving)
store_step ready m (write_value s tail) = (m, working (add_len s tail))
store_step ready m (add_len s tail) =
    (record m { len = (m.len + 1) % 2 ^ 64 }, working (store_state s tail))
store_step ready m (store_state s tail) = (m, leaving)
store_step ready m (get_len s index) =
    (m, if ltb index m.len then working (get_head s index) else leaving)
store_step ready m (get_head s index) =
    let target = m.head + index in
    (m, if ltb target m.capacity then working (slot_wait s target finish) else leaving)
store_step ready m (walk_len s checked) =
    (m, if checked && m.len == 0 then leaving else working (walk_head s checked m.len))
store_step ready m (walk_head s checked len) = (m, working (walk_next s checked m.head len 0))
store_step ready m (walk_next s checked head len index) =
    let target = head + index in
    if ltb index len
    then (
      m,
      working (
          if checked && not (ltb target m.capacity)
          then walk_next s checked head len (index + 1)
          else slot_wait s target (go_on checked head len (index + 1))),
    )
    else (m, leaving)
store_step ready m (slot_wait s target onward) =
    (m, working (if ready then slot_lock s target onward else slot_wait s target onward))
store_step ready m (slot_lock s target onward) =
    (m, working (if ready then slot_use s target onward else slot_lock s target onward))
store_step ready m (slot_use s target onward) =
    (m, working (if ready then slot_unlock s target onward else slot_use s target onward))
store_step ready m (slot_unlock s target onward) = (m, after_slot s onward)
store_step ready m (reset_look n) = (m, if ready then reset_leave n else leaving)
store_step ready m (swap_storage n) =
    (record m { storage = m.storage + 1; capacity = n }, working (swap_head n))
store_step ready m (swap_head n) = (record m { head = 0 }, working (swap_tail n))
store_step ready m (swap_tail n) = (record m { tail = n }, working (swap_len n))
store_step ready m (swap_len n) = (record m { len = n }, leaving)

pub record StorageMem (L : Lock) : Type 0 where
  pub coord : L.Mem
  pub store : Store

pub record StorageTask (L : Lock) : Type 0 where
  pub coord : L.Thread
  pub stage : StorageStage

pub record StorageChoice (L : Lock) : Type 0 where
  pub coord : L.Choice
  pub call : Option StorageCall
  pub ready : Bool

-- The body of a call behind `ArrayCoordGuard::shared`.
abbrev pub begin_work : StorageCall → ℕ → StorageStage
begin_work call_push s = working (push_load s)
begin_work call_for_each s = working (walk_len s false)
begin_work call_as_vec s = working (walk_len s true)
begin_work (call_get index) s = working (get_len s index)
begin_work _ s = leaving

module _ (L : Lock) where
  abbrev pub coord_access :
      Request
      → StorageChoice L
      → StorageMem L
      → StorageTask L
      → StorageStage
      → StorageMem L × StorageTask L
  coord_access q c m t s =
      let (k, p) = L.move (L.ask q c.coord) m.coord t.coord in
      (record m { coord = k }, record t { coord = p; stage = s })

  -- A thread that has the lock goes to the first stage, one that is out to the second with the
  -- request, and any other waits.
  abbrev pub on_place :
      Place
      → StorageStage
      → (Request × StorageStage)
      → StorageChoice L
      → StorageMem L
      → StorageTask L
      → StorageMem L × StorageTask L
  on_place (inside _) s (q, z) c m t = (m, record t { stage = s })
  on_place out s (q, z) c m t = coord_access q c m t z
  on_place p s (q, z) c m t = coord_access proceed c m t t.stage

  -- The drop of a guard of the lock, and what comes after it.
  abbrev pub give_back :
      Place
      → (StorageMem L × StorageTask L)
      → StorageChoice L
      → StorageMem L
      → StorageTask L
      → StorageMem L × StorageTask L
  give_back (inside _) z c m t = coord_access release c m t t.stage
  give_back out z c m t = z
  give_back p z c m t = coord_access proceed c m t t.stage

  -- The new storage is built before the lock is taken, and must not be empty.
  abbrev pub storage_call :
      Option StorageCall
      → StorageChoice L
      → StorageMem L
      → StorageTask L
      → StorageMem L × StorageTask L
  storage_call none c m t = (m, t)
  storage_call (some (call_reset n)) c m t =
      if ltb 0 n && ltb n (2 ^ 64)
      then coord_access (acquire try_exclusive) c m t (reset_try n)
      else (m, t)
  storage_call (some call) c m t = coord_access (acquire shared) c m t (entering call)

  abbrev pub storage_step :
      StorageStage → StorageChoice L → StorageMem L → StorageTask L → StorageMem L × StorageTask L
  storage_step idle c m t = storage_call c.call c m t
  storage_step (entering call) c m t =
      on_place (L.place t.coord) (begin_work call m.store.storage) (proceed, entering call) c m t
  storage_step (working w) c m t =
      let (store, s) = store_step c.ready m.store w in
      (record m { store = store }, record t { stage = s })
  storage_step leaving c m t = give_back (L.place t.coord) (m, record t { stage = idle }) c m t
  storage_step (reset_try n) c m t =
      on_place (L.place t.coord) (working (swap_storage n)) (acquire shared, reset_enter n) c m t
  storage_step (reset_enter n) c m t =
      on_place (L.place t.coord) (working (reset_look n)) (proceed, reset_enter n) c m t
  storage_step (reset_leave n) c m t =
      give_back (L.place t.coord) (coord_access (acquire try_exclusive) c m t (reset_try n)) c m t

  abbrev pub storage_move :
      StorageChoice L → StorageMem L → StorageTask L → StorageMem L × StorageTask L
  storage_move c m t = storage_step t.stage c m t
