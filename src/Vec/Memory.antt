-- ===== src/Vec/Memory.antt =====
-- atomic/vec.rs: blocks, their pool and the stack of retired ones. A pointer is a number, null being
-- 0; an allocation takes a number that was never used. The pool, an `AtomicBuffer` of 512, is the
-- queue that such a ring stands for.
use crossync.Prelude.{
  ℕ, zero, suc, ◌+◌, ◌%◌, ◌^◌, Bool, Option, none, some, List, [], ◌∷◌, ◌++◌, ◌==◌, if◌then◌else◌,
  length,
}

-- A slot's state: 0, WRITE for a value that is there, and READ for one that was taken.
pub record VecSlot (T : Type 0) : Type 0 where
  pub state : ℕ
  pub value : Option T

pub record Block (T : Type 0) : Type 0 where
  pub next : ℕ
  pub counters : ℕ
  pub slots : ℕ → VecSlot T

-- `InnerVec` with the memory that it points into; `tags` and `ptrs` are its `BlockArray`.
pub record InnerVec (T : Type 0) : Type 0 where
  pub head_index : ℕ
  pub head_block : ℕ
  pub tail_index : ℕ
  pub tail_block : ℕ
  pub tags : ℕ → ℕ
  pub ptrs : ℕ → ℕ
  pub free_list : List ℕ
  pub retired : ℕ
  pub retired_count : ℕ
  pub heap : ℕ → Block T
  pub fresh : ℕ

-- A write at one address.
abbrev pub put {ℓ} : {A : Type ℓ} → (ℕ → A) → ℕ → A → ℕ → A
put f p a q = if q == p then a else f q

-- `state & WRITE != 0`
abbrev pub is_written : ℕ → Bool
is_written state = state % 2 == 1

module _ {T : Type 0} where
  -- A block of zeros, as `alloc_zeroed` gives it.
  abbrev pub zeroed : Block T
  zeroed = record { next = 0; counters = 0; slots = λ _. record { state = 0; value = none } }

  -- `Block::reset`; the values stay where they are.
  abbrev pub reset_block : Block T → Block T
  reset_block b = record {
    next = 0;
    counters = 0;
    slots = λ i. record { state = 0; value = (b.slots i).value };
  }

  -- `BlockArray::set` and `BlockArray::get`
  abbrev pub set_entry : InnerVec T → ℕ → ℕ → InnerVec T
  set_entry v idx block = record v {
    tags = put v.tags (idx % 32) idx;
    ptrs = put v.ptrs (idx % 32) block;
  }

  unfoldable pub get_entry : InnerVec T → ℕ → ℕ
  get_entry v idx = if v.tags (idx % 32) == idx then v.ptrs (idx % 32) else 0

  -- `acquire_block`: a block of the pool, or a new one.
  abbrev pub acquire_from : List ℕ → InnerVec T → ℕ × InnerVec T
  acquire_from [] v = (v.fresh, record v { heap = put v.heap v.fresh zeroed; fresh = v.fresh + 1 })
  acquire_from (p ∷ rest) v = (p, record v { free_list = rest })

  abbrev pub acquire_block : InnerVec T → ℕ × InnerVec T
  acquire_block v = acquire_from v.free_list v

  abbrev pub set_next : InnerVec T → ℕ → ℕ → InnerVec T
  set_next v p q = record v { heap = put v.heap p (record (v.heap p) { next = q }) }

  abbrev pub set_slot : InnerVec T → ℕ → ℕ → VecSlot T → InnerVec T
  set_slot v p i s = record v {
    heap = put v.heap p (record (v.heap p) { slots = put (v.heap p).slots i s });
  }

  abbrev pub set_counters : InnerVec T → ℕ → ℕ → InnerVec T
  set_counters v p n = record v { heap = put v.heap p (record (v.heap p) { counters = n }) }

  -- `retire`
  abbrev pub retire : InnerVec T → ℕ → InnerVec T
  retire v block = record (set_next v block v.retired) {
    retired = block;
    retired_count = (v.retired_count + 1) % 2 ^ 64;
  }

  -- One turn of the loop in `reclaim_retired`, without the step to the next block.
  abbrev pub recycle : InnerVec T → ℕ → InnerVec T
  recycle v block = if length v.free_list == 512 then v else record v {
    heap = put v.heap block (reset_block (v.heap block));
    free_list = v.free_list ++ block ∷ [];
  }

  unfoldable pub recycle_all : ℕ → InnerVec T → ℕ → Option (InnerVec T)
  recycle_all zero v block = if block == 0 then some v else none
  recycle_all (suc fuel) v block =
      let rest = recycle_all fuel (recycle v block) (v.heap block).next in
      if block == 0 then some v else rest

  -- `reclaim_retired`; its loop has as much fuel as blocks were retired, and `none` is its lack.
  unfoldable pub reclaim_retired : InnerVec T → Option (InnerVec T)
  unfolding recycle_all
  reclaim_retired v =
      recycle_all v.retired_count (record v { retired = 0; retired_count = 0 }) v.retired
