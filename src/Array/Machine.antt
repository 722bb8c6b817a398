-- ===== src/Array/Machine.antt =====
-- atomic/array.rs: push and get of an `AtomicArray`, one access to shared memory at a time, while the
-- coordination lock is shared. Left open to the schedule is which operation a thread calls. The
-- lock of a slot is left out: the value of a slot that is written is only read here.
use crossync.Prelude.{ℕ, ◌+◌, ◌%◌, ◌^◌, Option, none, some, ltb, ◌==◌, if◌then◌else◌}

-- A slot's state: 0 is EMPTY and 1 WRITE.
pub record ArraySlot (T : Type 0) : Type 0 where
  pub state : ℕ
  pub value : Option T

pub record ArrayMem (T : Type 0) : Type 0 where
  pub slots : ℕ → ArraySlot T
  pub capacity : ℕ
  pub head : ℕ
  pub tail : ℕ
  pub len : ℕ

pub data ArrayOp (T : Type 0) : Type 0 where
  call_push : (value : T) → ArrayOp T
  call_get : (index : ℕ) → ArrayOp T
  stay : ArrayOp T

-- Where a thread stands, with the locals that are live there.
pub data ArrayPc (T : Type 0) : Type 0 where
  idle : ArrayPc T
  push_load : (value : T) → ArrayPc T  -- `push`, this and the next
  push_cas : (value : T) → (tail : ℕ) → ArrayPc T
  slow_load : (value : T) → ArrayPc T  -- `push_slow`, this and the next
  slow_cas : (value : T) → (tail : ℕ) → ArrayPc T
  write_value : (value : T) → (tail : ℕ) → ArrayPc T  -- both, from here to `store_state`
  add_len : (tail : ℕ) → ArrayPc T
  store_state : (tail : ℕ) → ArrayPc T
  pushed : ArrayPc T  -- returned `Ok` or `Err`
  rejected : (value : T) → ArrayPc T
  get_len : (index : ℕ) → ArrayPc T  -- `get`, from here to `get_wait`
  get_head : (index : ℕ) → ArrayPc T
  get_wait : (target : ℕ) → ArrayPc T
  got : (result : Option T) → ArrayPc T

module _ {T : Type 0} where
  abbrev pub put_slot : ArrayMem T → ℕ → ArraySlot T → ArrayMem T
  put_slot m p s = record m { slots = λ q. if q == p then s else m.slots q }

  -- The call that a thread makes between two operations.
  unfoldable pub array_call : ArrayOp T → ArrayPc T → ArrayPc T
  array_call (call_push value) p = push_load value
  array_call (call_get index) p = get_len index
  array_call stay p = p

  -- The loop of `push_slow` with the tail last seen.
  abbrev pub slow_next : ArrayMem T → T → ℕ → ArrayPc T
  slow_next m value tail = if ltb tail m.capacity then slow_cas value tail else rejected value

  -- The next access of a thread.
  unfoldable pub array_move : ArrayOp T → ArrayMem T → ArrayPc T → ArrayMem T × ArrayPc T
  array_move c m (push_load value) =
      (m, if ltb m.tail m.capacity then push_cas value m.tail else rejected value)
  array_move c m (push_cas value tail) =
      if m.tail == tail
      then (record m { tail = tail + 1 }, write_value value tail)
      else (m, slow_load value)
  array_move c m (slow_load value) = (m, slow_next m value m.tail)
  array_move c m (slow_cas value tail) =
      if m.tail == tail
      then (record m { tail = tail + 1 }, write_value value tail)
      else (m, slow_next m value m.tail)
  array_move c m (write_value value tail) =
      (put_slot m tail (record (m.slots tail) { value = some value }), add_len tail)
  array_move c m (add_len tail) = (record m { len = (m.len + 1) % 2 ^ 64 }, store_state tail)
  array_move c m (store_state tail) =
      (put_slot m tail (record (m.slots tail) { state = 1 }), pushed)
  array_move c m (get_len index) = (m, if ltb index m.len then get_head index else got none)
  array_move c m (get_head index) =
      let target = m.head + index in
      (m, if ltb target m.capacity then get_wait target else got none)
  array_move c m (get_wait target) =
      (m, if (m.slots target).state % 2 == 1 then got (m.slots target).value else get_wait target)
  array_move c m p = (m, array_call c p)
