-- ===== src/Vec/Calls.antt =====
-- atomic/vec.rs: the calls that are made of `push_internal`, `pop_raw` and `reclaim_retired`, and
-- what the indices say, for a thread that is alone: it gets the coordination lock. `none` is as for
-- `pop_raw`, or the lack of fuel.
use crossync.Prelude.{
  ℕ, zero, suc, ◌+◌, ◌-◌, ◌*◌, ◌/◌, ◌%◌, ◌^◌, min, Bool, Option, none, some, List, [], ◌∷◌, leb,
  ◌==◌, if◌then◌else◌, length, get_elem?, erase_idx, ◌>>=◌,
}
use mathlib.Core.List.{reverse}
use crossync.Vec.Memory.{InnerVec, put, set_entry, reset_block, acquire_block, reclaim_retired}
use crossync.Vec.Ends.{push_internal, pop_raw}

-- The places before a physical index that have a slot.
abbrev pub logical : ℕ → ℕ
logical physical = physical / 32 * 31 + min (physical % 32) 31

abbrev pub calc_len : ℕ → ℕ → ℕ
calc_len start end = if leb end start then 0 else logical end - logical start

module _ {T : Type 0} where
  unfoldable pub len : InnerVec T → ℕ
  len v = calc_len (v.head_index / 2) (v.tail_index / 2)

  unfoldable pub is_empty : InnerVec T → Bool
  is_empty v = len v == 0

  unfoldable pub capacity : InnerVec T → ℕ
  capacity v = ((2 ^ 64 + v.tail_index / 2 - v.head_index / 2) % 2 ^ 64) / 32 * 32 + 32

  abbrev pub try_reclaim : InnerVec T → Option (InnerVec T)
  try_reclaim v = if v.retired_count == 0 then some v else reclaim_retired v

  -- The end of `pop`: a reclamation, where `pop_raw` asks for one.
  abbrev pub settle : Option T × Bool × InnerVec T → Option (Option T × InnerVec T)
  settle (result, reclaim, w) =
      (if reclaim then try_reclaim w else some w) >>= λ settled. some (result, settled)

  unfoldable pub pop : InnerVec T → Option (Option T × InnerVec T)
  pop v = pop_raw v >>= settle

  abbrev pub pop_internal : InnerVec T → Option (Option T × InnerVec T)
  pop_internal v = do (result, reclaim, w) ← pop_raw v; some (result, w)

  -- `push_batch`, and the loops over `push_internal`.
  unfoldable pub push_batch : InnerVec T → List T → Option (InnerVec T)
  push_batch v [] = some v
  push_batch v (x ∷ xs) = do w ← push_internal v x; push_batch w xs

  -- The body of a loop that puts popped values in a list and ends with the first `None`.
  abbrev pub gather :
      (InnerVec T → Option (List T × InnerVec T))
      → Option T × InnerVec T
      → Option (List T × InnerVec T)
  gather more (none, w) = some ([], w)
  gather more (some x, w) = do (out, rest) ← more w; some (x ∷ out, rest)

  -- `pop_batch`
  unfoldable pub pop_batch : ℕ → InnerVec T → Option (List T × InnerVec T)
  pop_batch zero v = some ([], v)
  pop_batch (suc count) v = pop v >>= gather (pop_batch count)

  unfoldable pub drain : InnerVec T → Option (List T × InnerVec T)
  drain v = pop_batch (len v) v

  -- `while let Some(value) = self.pop_internal()`, with the values in a list.
  unfoldable pub pop_all : ℕ → InnerVec T → Option (List T × InnerVec T)
  pop_all zero v = none
  pop_all (suc fuel) v = pop_internal v >>= gather (pop_all fuel)

  -- The fuel of those loops: a value per turn, and the turn that finds none.
  abbrev pub pop_every : InnerVec T → Option (List T × InnerVec T)
  pop_every v = pop_all (len v + 1) v

  unfoldable pub as_vec : InnerVec T → Option (List T × InnerVec T)
  as_vec v = do (out, w) ← pop_every v; w' ← reclaim_retired w; some (out, w')

  unfoldable pub reverse_inner : InnerVec T → Option (InnerVec T)
  reverse_inner v = do (elements, w) ← pop_every v; push_batch w (reverse elements)

  -- The end of `remove_inner`, with the values in hand.
  abbrev pub push_others : ℕ → List T × InnerVec T → Option (Option T × InnerVec T)
  push_others index (elements, w) =
      if leb (length elements) index
      then (push_batch w elements >>= λ full. some (none, full))
      else push_batch w (erase_idx elements index) >>= λ full. some (get_elem? elements index, full)

  unfoldable pub remove_inner : InnerVec T → ℕ → Option (Option T × InnerVec T)
  remove_inner v index =
      if leb (len v) index then some (none, v) else pop_every v >>= push_others index

  -- `reset_with`, whose `init` gave `values`. The block array loses its entries, all but the first.
  abbrev pub clear_entries : InnerVec T → ℕ → InnerVec T
  clear_entries v zero = v
  clear_entries v (suc i) = set_entry (clear_entries v i) i 0

  abbrev pub start_in : InnerVec T → ℕ → InnerVec T
  start_in v block = set_entry (record v { head_block = block; tail_block = block }) 0 block

  abbrev pub start_again : InnerVec T → InnerVec T
  start_again w =
      let old_block = w.head_block in
      let cleared = clear_entries (record w { head_index = 0; tail_index = 0 }) 32 in
      if old_block == 0
      then (let (block, got) = acquire_block cleared in start_in got block)
      else start_in
          (record cleared { heap = put w.heap old_block (reset_block (w.heap old_block)) })
          old_block

  unfoldable pub reset_with : InnerVec T → List T → Option (ℕ × InnerVec T)
  reset_with v values = do
    (gone, w) ← pop_every v
    w' ← reclaim_retired w
    full ← push_batch (start_again w') values
    some (length values, full)
