-- ===== src/Vec/Access.antt =====
-- atomic/vec.rs: access by an index in the exclusive phase. A slot's pointer is its block and its
-- offset.
use crossync.Prelude.{
  ℕ, zero, suc, ◌+◌, ◌-◌, ◌/◌, ◌%◌, Bool, true, false, ◌||◌, Option, none, leb, ◌==◌, if◌then◌else◌,
}
use crossync.Vec.Memory.{InnerVec, is_written, get_entry, set_slot}
use crossync.Vec.Calls.{len}

-- The block number and the offset of the value with this index.
abbrev pub locate : ℕ → ℕ → ℕ × ℕ
locate start_idx index =
    let logical = start_idx % 32 + index in (start_idx / 32 + logical / 31, logical % 31)

module _ {T : Type 0} where
  -- The loop of `get_block_at`, with the turns that `current_block` has up to `target_block`.
  unfoldable pub walk : ℕ → InnerVec T → ℕ → ℕ
  walk zero v block = block
  walk (suc turns) v block =
      let further = walk turns v (v.heap block).next in if block == 0 then block else further

  unfoldable pub get_block_at : InnerVec T → ℕ → ℕ → ℕ
  get_block_at v target_block start_block =
      let cached = get_entry v target_block in
      let walked = walk (target_block - start_block) v v.head_block in
      if cached == 0 then walked else cached

  abbrev pub read_value : InnerVec T → ℕ → ℕ → Option T
  read_value v block offset =
      let slot = (v.heap block).slots offset in
      if block == 0 then none else if is_written slot.state then slot.value else none

  unfoldable pub get_inner : InnerVec T → ℕ → Option T
  get_inner v index =
      let start_idx = v.head_index / 2 in
      let (target, offset) = locate start_idx index in
      if leb (len v) index
      then none
      else read_value v (get_block_at v target (start_idx / 32)) offset

  -- `get_slot_ptr`
  abbrev pub get_slot_ptr : InnerVec T → ℕ → ℕ → ℕ × ℕ
  get_slot_ptr v index start_idx =
      let (target, offset) = locate start_idx index in
      (get_block_at v target (start_idx / 32), offset)

  -- `ptr::swap` of the values in two slots.
  abbrev pub swap_values : InnerVec T → ℕ × ℕ → ℕ × ℕ → InnerVec T
  swap_values v (b, o) (c, p) =
      let s = (v.heap b).slots o in
      let t = (v.heap c).slots p in
      set_slot (set_slot v b o (record s { value = t.value })) c p (record t { value = s.value })

  unfoldable pub swap_inner : InnerVec T → ℕ → ℕ → Bool × InnerVec T
  swap_inner v i j =
      let start_idx = v.head_index / 2 in
      let ptr_i = get_slot_ptr v i start_idx in
      let ptr_j = get_slot_ptr v j start_idx in
      if leb (len v) i || leb (len v) j
      then (false, v)
      else if ptr_i.0 == 0 || ptr_j.0 == 0
      then (false, v)
      else (true, swap_values v ptr_i ptr_j)

  abbrev pub swap : InnerVec T → ℕ → ℕ → Bool × InnerVec T
  swap v i j = if i == j then (true, v) else swap_inner v i j
