-- ===== src/Vec/Scan.antt =====
-- atomic/vec.rs: the loops over all slots in the exclusive phase. `index_of_inner`, `find_inner`,
-- `for_each_inner`, `fold_inner` and `reduce_inner` share one loop, `scan`, and differ in its body:
-- it gets the accumulator and a slot, and returns early with `inl`.
use crossync.Prelude.{
  ℕ, zero, suc, ◌+◌, ◌-◌, ◌*◌, ◌/◌, ◌%◌, min, Bool, true, false, ◌&&◌, not, Option, none, some, leb,
  ltb, ◌==◌, if◌then◌else◌, ◌⊎◌, inl, inr, ◌>>=◌,
}
use crossync.Vec.Memory.{VecSlot, Block, InnerVec, is_written}

-- What follows in a loop, unless it has returned.
abbrev pub go_on : {R B C : Type 0} → (B → R ⊎ C) → R ⊎ B → R ⊎ C
go_on next (inl r) = inl r
go_on next (inr acc) = next acc

abbrev pub go_on? : {R B C : Type 0} → (B → Option (R ⊎ C)) → R ⊎ B → Option (R ⊎ C)
go_on? next (inl r) = some (inl r)
go_on? next (inr acc) = next acc

module _ {T R B : Type 0} (body : B → VecSlot T → R ⊎ B) where
  -- The inner loop, with the offsets that it has left.
  unfoldable pub scan_slots : ℕ → Block T → ℕ → B → R ⊎ B
  scan_slots zero block offset acc = inr acc
  scan_slots (suc turns) block offset acc =
      go_on (scan_slots turns block (offset + 1)) (body acc (block.slots offset))

  -- The outer loop; `none` is the lack of fuel.
  unfoldable pub scan_blocks : ℕ → InnerVec T → ℕ → ℕ → ℕ → ℕ → B → Option (R ⊎ B)
  scan_blocks zero v block block_start offset end_idx acc =
      if ltb block_start end_idx && not (block == 0) then none else some (inr acc)
  scan_blocks (suc fuel) v block block_start offset end_idx acc =
      let block_end = min (block_start + 31) end_idx in
      let slots = scan_slots (block_end - (block_start + offset)) (v.heap block) offset acc in
      let turn =
        go_on? (scan_blocks fuel v (v.heap block).next (block_start + 32) 0 end_idx) slots in
      if ltb block_start end_idx && not (block == 0) then turn else some (inr acc)

  -- The loop over the vector. It has fuel for the blocks from the head's to the tail's.
  unfoldable pub scan : InnerVec T → B → Option (R ⊎ B)
  scan v acc =
      let start_idx = v.head_index / 2 in
      let end_idx = v.tail_index / 2 in
      scan_blocks (end_idx / 32 - start_idx / 32 + 1) v v.head_block (start_idx / 32 * 32)
        (start_idx % 32) end_idx acc

-- The result of a loop that has `None` at its end.
abbrev pub returned : {R B : Type 0} → R ⊎ B → Option R
returned (inl r) = some r
returned (inr acc) = none

-- The accumulator of a loop that has no early return.
abbrev pub finished : {R : Type 0} → R ⊎ R → R
finished (inl r) = r
finished (inr acc) = acc

module _ {T : Type 0} where
  -- The value of a slot that is written.
  abbrev pub held : VecSlot T → Option T
  held slot = if is_written slot.state then slot.value else none

  abbrev pub index_body : (T → T → Bool) → T → ℕ → VecSlot T → ℕ ⊎ ℕ
  index_body eq value logical_idx slot = elim (held slot) [
    | none ↦ inr (logical_idx + 1)
    | some v ↦ if eq v value then inl logical_idx else inr (logical_idx + 1)
  ]

  unfoldable pub index_of_inner : (T → T → Bool) → InnerVec T → T → Option (Option ℕ)
  index_of_inner eq v value = scan (index_body eq value) v 0 >>= λ r. some (returned r)

  abbrev pub contains : (T → T → Bool) → InnerVec T → T → Option Bool
  contains eq v value =
      index_of_inner eq v value >>= λ r. elim r [ none ↦ some false | some i ↦ some true ]

  abbrev pub find_body : (T → Bool) → Unit {0} → VecSlot T → T ⊎ Unit {0}
  find_body predicate acc slot = elim (held slot) [
    | none ↦ inr tt
    | some v ↦ if predicate v then inl v else inr tt
  ]

  unfoldable pub find_inner : (T → Bool) → InnerVec T → Option (Option T)
  find_inner predicate v = scan (find_body predicate) v tt >>= λ r. some (returned r)

  abbrev pub fold_body : {B : Type 0} → (B → T → B) → B → VecSlot T → B ⊎ B
  fold_body f acc slot = elim (held slot) [ none ↦ inr acc | some v ↦ inr (f acc v) ]

  -- `fold_inner`, and `for_each_inner` with what its function does as the accumulator.
  unfoldable pub fold_inner : {B : Type 0} → InnerVec T → B → (B → T → B) → Option B
  fold_inner v init f = scan (fold_body f) v init >>= λ r. some (finished r)

  abbrev pub reduce_step : (T → T → T) → Option T → T → Option T
  reduce_step f none v = some v
  reduce_step f (some a) v = some (f a v)

  unfoldable pub reduce_inner : InnerVec T → (T → T → T) → Option (Option T)
  reduce_inner v f =
      let folded = scan (fold_body (reduce_step f)) v none >>= λ r. some (finished r) in
      if leb (v.tail_index / 2) (v.head_index / 2) then some none else folded
