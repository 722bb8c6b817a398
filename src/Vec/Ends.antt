-- ===== src/Vec/Ends.antt =====
-- atomic/vec.rs: `push_internal` and `pop_raw` by a thread that is alone, so that no
-- compare-exchange fails. `none` is a loop that waits for another thread, or a value that is not
-- there.
use crossync.Prelude.{
  ℕ, ◌+◌, ◌-◌, ◌/◌, ◌%◌, ◌^◌, Bool, false, ◌&&◌, ◌||◌, Option, none, some, [], leb, ◌==◌,
  if◌then◌else◌,
}
use crossync.Vec.Memory.{
  VecSlot, InnerVec, zeroed, put, is_written, set_entry, acquire_block, set_next, set_slot,
  set_counters, retire,
}

module _ {T : Type 0} where
  abbrev pub new_vec : InnerVec T
  new_vec = record {
    head_index = 0;
    head_block = 1;
    tail_index = 0;
    tail_block = 1;
    tags = put (λ _. 2 ^ 64 - 1) 0 0;
    ptrs = put (λ _. 0) 0 1;
    free_list = [];
    retired = 0;
    retired_count = 0;
    heap = λ _. zeroed;
    fresh = 2;
  }

  -- The tail moves on to a new block, behind the 31st value of its own.
  abbrev pub grow_into : ℕ → InnerVec T → ℕ → ℕ → InnerVec T
  grow_into next v block new_tail =
      record (set_entry (set_next v block next) (new_tail / 2 / 32 + 1) next) {
        tail_block = next;
        tail_index = (new_tail + 2) % 2 ^ 64;
      }

  abbrev pub grow : InnerVec T → ℕ → ℕ → InnerVec T
  grow v block new_tail = let (next, v') = acquire_block v in grow_into next v' block new_tail

  -- The turn of the loop in `push_internal` with the offset and the block that it has loaded.
  abbrev pub push_with : InnerVec T → T → ℕ → ℕ → Option (InnerVec T)
  push_with v value offset block =
      let new_tail = (v.tail_index + 2) % 2 ^ 64 in
      let claimed = record v { tail_index = new_tail } in
      if offset == 31
      then none
      else some (
          set_slot (if offset + 1 == 31 then grow claimed block new_tail else claimed) block offset
            (record { state = 1; value = some value }))

  unfoldable pub push_internal : InnerVec T → T → Option (InnerVec T)
  push_internal v value = push_with v value (v.tail_index / 2 % 32) v.tail_block

  -- The head moves on to the next block.
  abbrev pub advance : InnerVec T → ℕ → ℕ → Option (InnerVec T)
  advance v block new_head =
      let next = (v.heap block).next in
      if next == 0
      then none
      else some (record v {
        head_block = next;
        head_index =
            (new_head - new_head % 2 + 2) % 2 ^ 64 + (if (v.heap next).next == 0 then 0 else 1);
      })

  -- Whether the retirement of one more block asks for a reclamation.
  abbrev pub due : InnerVec T → Bool
  due v = leb 64 (v.retired_count + 1) && (v.retired_count + 1) % 64 == 0

  -- The value leaves its slot, and a block whose values have all left is retired.
  abbrev pub leave : InnerVec T → ℕ → ℕ → InnerVec T × Bool
  leave v block offset =
      let read_count = ((v.heap block).counters + 1) % 2 ^ 64 in
      let counted =
        set_counters (set_slot v block offset (record ((v.heap block).slots offset) { state = 2 }))
          block read_count in
      if read_count == 31 then (retire counted block, due v) else (counted, false)

  abbrev pub take_value : InnerVec T → ℕ → ℕ → VecSlot T → Option (Option T × Bool × InnerVec T)
  take_value v block offset slot =
      if is_written slot.state
      then (elim slot.value [
        | none ↦ none
        | some x ↦ let (left, reclaim) = leave v block offset in some (some x, reclaim, left)
      ])
      else none

  -- The compare-exchange of `pop_raw` is won with `new_head`.
  unfoldable pub pop_won : InnerVec T → ℕ → ℕ → ℕ → Option (Option T × Bool × InnerVec T)
  pop_won v block offset new_head =
      let claimed = record v { head_index = new_head } in
      elim (if offset + 1 == 31 then advance claimed block new_head else some claimed) [
        | none ↦ none
        | some moved ↦ take_value moved block offset ((moved.heap block).slots offset)
      ]

  unfoldable pub pop_raw : InnerVec T → Option (Option T × Bool × InnerVec T)
  pop_raw v =
      let head = v.head_index in
      let offset = head / 2 % 32 in
      let new_head = (head + 2) % 2 ^ 64 in
      let flagged = if head / 2 / 32 == v.tail_index / 2 / 32 then new_head else new_head + 1 in
      if offset == 31 || v.head_block == 0
      then none
      else if new_head % 2 == 0
      then (if head / 2 == v.tail_index / 2
          then some (none, false, v)
          else pop_won v v.head_block offset flagged)
      else pop_won v v.head_block offset new_head
