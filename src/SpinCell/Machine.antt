-- ===== src/SpinCell/Machine.antt =====
-- lock_free/splcell.rs: the operations of `SpinCell`, one access to the state word at a time. Left
-- open to the schedule: which operation a thread calls, whether a weak compare-exchange fails
-- without cause, and whether the backoff of a reader is completed. The constants and the queries
-- of the word have the same text as those of core/mutex.rs.
use crossync.Prelude.{ℕ, ◌+◌, ◌-◌, ◌%◌, ◌^◌, Bool, not, ◌&&◌, ltb, ◌==◌, if◌then◌else◌}
use crossync.RawMutex.Word.{
  unlocked, one_reader, one_writer, holder_bits, readers_parked, writers_parked, is_writer_locked,
  admits_reader,
}

pub data CellOp : Type 0 where
  lock_exclusive lock_shared unlock stay : CellOp

pub record CellChoice : Type 0 where
  pub op : CellOp
  pub spurious : Bool
  pub completed : Bool

-- Where a thread stands, with the locals that are live there.
pub data CellPc : Type 0 where
  idle : CellPc
  exclusive : CellPc  -- holds an `ExclusiveGuard`
  shared : CellPc  -- holds a `SharedGuard`
  exclusive_cas : CellPc  -- `lock_exclusive`
  exclusive_load : CellPc  -- `lock_exclusive_slow`, this and the next
  exclusive_loop : (state : ℕ) → CellPc
  shared_fast_load : CellPc  -- `lock_shared`, this and the next
  shared_fast_cas : (state : ℕ) → CellPc
  shared_load : CellPc  -- `lock_shared_slow`, from here to `shared_spin`
  shared_loop : (state : ℕ) → CellPc
  shared_spin : CellPc
  unlock_exclusive_store : CellPc  -- `unlock_exclusive`
  unlock_shared_sub : CellPc  -- `unlock_shared`, this and the next
  unlock_shared_clear : CellPc

-- `compare_exchange`, and the weak one with its failure without cause.
abbrev swap_if : ℕ → ℕ → ℕ → CellPc → CellPc → ℕ × CellPc
swap_if m old new won lost = if m == old then (new, won) else (m, lost)

abbrev swap_if_weak : Bool → ℕ → ℕ → ℕ → CellPc → CellPc → ℕ × CellPc
swap_if_weak spurious m old new won lost =
    if m == old && not spurious then (new, won) else (m, lost)

-- The call that a thread makes between two operations; dropping a guard is `unlock`.
unfoldable pub cell_call : CellOp → CellPc → CellPc
cell_call lock_exclusive idle = exclusive_cas
cell_call lock_shared idle = shared_fast_load
cell_call unlock exclusive = unlock_exclusive_store
cell_call unlock shared = unlock_shared_sub
cell_call o p = p

-- The loop of `lock_exclusive_slow` with the word last seen.
unfoldable pub cell_exclusive_slow : CellChoice → ℕ → ℕ → ℕ × CellPc
cell_exclusive_slow c m state =
    if holder_bits state == 0
    then swap_if_weak c.spurious m state (state % 4 + one_writer) exclusive (exclusive_loop m)
    else if not (writers_parked state)
    then swap_if_weak c.spurious m state (state + 2) exclusive_load (exclusive_loop m)
    else (m, exclusive_load)

-- The loop of `lock_shared_slow` with the word last seen. Its addition is checked for overflow, and
-- not for the writer's pattern.
unfoldable pub cell_shared_slow : CellChoice → ℕ → ℕ → ℕ × CellPc
cell_shared_slow c m state =
    if not (is_writer_locked state) && not (writers_parked state)
    then (if ltb (state + one_reader) (2 ^ 64)
        then swap_if_weak c.spurious m state (state + one_reader) shared shared_load
        else (m, shared_load))
    else if not c.completed
    then (m, shared_load)
    else if not (readers_parked state)
    then swap_if_weak c.spurious m state (state + 1) shared_spin shared_load
    else (m, shared_spin)

-- The next access of a thread.
unfoldable pub cell_move : CellChoice → ℕ → CellPc → ℕ × CellPc
cell_move c m exclusive_cas = swap_if m unlocked one_writer exclusive exclusive_load
cell_move c m exclusive_load = (m, exclusive_loop m)
cell_move c m (exclusive_loop state) = cell_exclusive_slow c m state
cell_move c m shared_fast_load = (m, if admits_reader m then shared_fast_cas m else shared_load)
cell_move c m (shared_fast_cas state) = swap_if m state (state + one_reader) shared shared_load
cell_move c m shared_load = (m, shared_loop m)
cell_move c m (shared_loop state) = cell_shared_slow c m state
cell_move c m shared_spin = (m, if is_writer_locked m then shared_spin else shared_load)
cell_move c m unlock_exclusive_store = (unlocked, idle)
cell_move c m unlock_shared_sub =
    ((m + 2 ^ 64 - one_reader) % 2 ^ 64, if m == one_reader + 2 then unlock_shared_clear else idle)
cell_move c m unlock_shared_clear = swap_if m 2 unlocked idle idle
cell_move c m p = (m, cell_call c.op p)
