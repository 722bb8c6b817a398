-- ===== src/Buffer/Machine.antt =====
-- atomic/buffer.rs: the operations of `AtomicBuffer`, one access to shared memory at a time. A
-- pointer is an `Option`, null being `none`. Left open to the schedule: whether a weak
-- compare-exchange fails without cause. A capacity is a power of two, so `& (cap - 1)` is `% cap`.
use crossync.Prelude.{
  ℕ, ◌+◌, ◌-◌, ◌%◌, ◌^◌, min, Bool, not, ◌&&◌, Option, none, some, List, [], ◌∷◌, ltb, leb, ◌==◌,
  if◌then◌else◌, get_elem?, set,
}
use crossync.Usize.{is_power_of_two}

pub record Slot (T : Type 0) : Type 0 where
  pub sequence : ℕ
  pub value : Option T

-- `AtomicBufferInner` without its reference count.
pub record Buffer (T : Type 0) : Type 0 where
  pub head : ℕ
  pub tail : ℕ
  pub slots : List (Slot T)
  pub single : Option T
  pub cap : ℕ

-- Where a thread stands, with the locals that are live there.
pub data Pc (T : Type 0) : Type 0 where
  idle : Pc T
  push_start : (value : Option T) → Pc T
  push_reload : (value : T) → Pc T
  push_check : (value : T) (pos : ℕ) → Pc T  -- the load of the slot's sequence
  push_cas : (value : T) (pos : ℕ) → Pc T
  push_write : (value : T) (pos : ℕ) → Pc T
  push_publish : (pos : ℕ) → Pc T
  pushed : Pc T  -- `Ok(())`
  rejected : (value : Option T) → Pc T  -- `Err(value)`
  pop_start : Pc T
  pop_reload : Pc T
  pop_check : (pos : ℕ) → Pc T
  pop_cas : (pos : ℕ) → Pc T
  pop_take : (pos : ℕ) → Pc T
  pop_publish : (pos : ℕ) (value : Option T) → Pc T
  popped : (value : Option T) → Pc T  -- `Some(value)`
  pop_tail : (pos : ℕ) → Pc T  -- the load of `tail` when the slot is behind
  empty : Pc T  -- `None`
  fault : Pc T  -- an index outside the slots

-- `wrapping_add` and `wrapping_sub`; as an `isize` a difference from 2 ^ 63 on is negative.
abbrev pub wrapping_add : ℕ → ℕ → ℕ
wrapping_add a b = (a + b) % 2 ^ 64

abbrev pub wrapping_sub : ℕ → ℕ → ℕ
wrapping_sub a b = (a + 2 ^ 64 - b) % 2 ^ 64

module _ {T : Type 0} where
  unfoldable pub fresh_slots : ℕ → ℕ → List (Slot T)
  fresh_slots ℕ.zero i = []
  fresh_slots (ℕ.suc n) i = record { sequence = i; value = none } ∷ fresh_slots n (i + 1)

  -- `with_capacity`; `none` is a failed assertion.
  unfoldable pub with_capacity : ℕ → Option (Buffer T)
  unfolding fresh_slots
  with_capacity cap =
      if is_power_of_two cap && ltb cap (2 ^ 63)
      then some (record { head = 0; tail = 0; slots = fresh_slots cap 0; single = none; cap = cap })
      else none

  -- The branch on the sequence of the slot at `pos`, against the number that the caller waits for.
  compare_sequence : ℕ → ℕ → Pc T → Pc T → Pc T → Pc T
  compare_sequence seq expected level behind ahead =
      let diff = wrapping_sub seq expected in
      if diff == 0 then level else if leb (2 ^ 63) diff then behind else ahead

  slot_sequence : Buffer T → ℕ → Option ℕ
  slot_sequence b pos = elim (get_elem? b.slots (pos % b.cap)) [
    | none ↦ none
    | some slot ↦ some slot.sequence
  ]

  push_at : Buffer T → T → ℕ → Pc T
  unfolding slot_sequence compare_sequence
  push_at b value pos = elim (slot_sequence b pos) [
    | none ↦ fault
    | some seq ↦
        compare_sequence seq pos (push_cas value pos) (rejected (some value)) (push_reload value)
  ]

  pop_at : Buffer T → ℕ → Pc T
  unfolding slot_sequence compare_sequence
  pop_at b pos = elim (slot_sequence b pos) [
    | none ↦ fault
    | some seq ↦ compare_sequence seq (wrapping_add pos 1) (pop_cas pos) (pop_tail pos) pop_reload
  ]

  -- `*slot.value.get() = value`
  write_value : Buffer T → ℕ → Option T → Buffer T
  write_value b pos value = elim (get_elem? b.slots (pos % b.cap)) [
    | none ↦ b
    | some slot ↦ record b { slots = set b.slots (pos % b.cap) (record slot { value = value }) }
  ]

  -- `slot.sequence.store(seq)`
  store_sequence : Buffer T → ℕ → ℕ → Buffer T
  store_sequence b pos seq = elim (get_elem? b.slots (pos % b.cap)) [
    | none ↦ b
    | some slot ↦ record b { slots = set b.slots (pos % b.cap) (record slot { sequence = seq }) }
  ]

  read_value : Buffer T → ℕ → Option T
  read_value b pos = elim (get_elem? b.slots (pos % b.cap)) [ none ↦ none | some slot ↦ slot.value ]

  -- `push` up to its first access: null is rejected, and a capacity of one has a cell of its own.
  start_push : Buffer T → Option T → Buffer T × Pc T
  start_push b none = (b, rejected none)
  start_push b (some value) =
      if b.cap == 1
      then (elim b.single [
        | none ↦ (record b { single = some value }, pushed)
        | some _ ↦ (b, rejected (some value))
      ])
      else (b, push_check value b.tail)

  start_pop : Buffer T → Buffer T × Pc T
  start_pop b =
      if b.cap == 1
      then (elim b.single [
        | none ↦ (b, empty)
        | some value ↦ (record b { single = none }, popped (some value))
      ])
      else (b, pop_check b.head)

  -- The next access of a thread.
  unfoldable pub move : Bool → Buffer T → Pc T → Buffer T × Pc T
  unfolding push_at pop_at write_value store_sequence read_value start_push start_pop
  move spurious b (push_start value) = start_push b value
  move spurious b (push_reload value) = (b, push_check value b.tail)
  move spurious b (push_check value pos) = (b, push_at b value pos)
  move spurious b (push_cas value pos) =
      if b.tail == pos && not spurious
      then (record b { tail = wrapping_add pos 1 }, push_write value pos)
      else (b, push_check value b.tail)
  move spurious b (push_write value pos) = (write_value b pos (some value), push_publish pos)
  move spurious b (push_publish pos) = (store_sequence b pos (wrapping_add pos 1), pushed)
  move spurious b pop_start = start_pop b
  move spurious b pop_reload = (b, pop_check b.head)
  move spurious b (pop_check pos) = (b, pop_at b pos)
  move spurious b (pop_cas pos) =
      if b.head == pos && not spurious
      then (record b { head = wrapping_add pos 1 }, pop_take pos)
      else (b, pop_check b.head)
  move spurious b (pop_take pos) = (write_value b pos none, pop_publish pos (read_value b pos))
  move spurious b (pop_publish pos value) =
      (store_sequence b pos (wrapping_add pos b.cap), popped value)
  move spurious b (pop_tail pos) = (b, if b.tail == pos then empty else pop_reload)
  move spurious b p = (b, p)

  unfoldable pub len_approx : Buffer T → ℕ
  len_approx b =
      if b.cap == 1
      then (elim b.single [ none ↦ 0 | some _ ↦ 1 ])
      else min (wrapping_sub b.tail b.head) b.cap

  unfoldable pub is_empty_fast : Buffer T → Bool
  is_empty_fast b = len_approx b == 0
