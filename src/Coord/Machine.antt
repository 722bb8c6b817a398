-- ===== src/Coord/Machine.antt =====
-- core/coord.rs: the operations of `Coord`, one access to shared memory at a time. A task is a
-- thread, which holds one guard at most, so that the assertion against reentrancy holds. `writers`
-- says whether the `SerialMutex` is held for writing. Left open to the schedule is which operation a
-- thread calls.
use crossync.Prelude.{
  ℕ, zero, suc, ◌+◌, ◌-◌, ◌%◌, ◌^◌, Bool, true, false, List, ltb, ◌==◌, if◌then◌else◌, get_or, set,
}

-- `LANES`, and the lane of the threads that have none of their own.
abbrev pub lanes : ℕ
lanes = 64

pub record CoordMem : Type 0 where
  pub readers : ℕ → ℕ
  pub writing : Bool
  pub writers : Bool

pub data CoordOp : Type 0 where
  call_shared call_exclusive call_try_exclusive drop_guard stay : CoordOp

-- Where a thread stands, with the locals that are live there. `try` is whether it is in
-- `try_exclusive`.
pub data CoordStage : Type 0 where
  idle : CoordStage
  pin : CoordStage  -- `shared`, from here to `wait_writing`
  recheck : CoordStage
  unpin_load : CoordStage
  unpin_store : (count : ℕ) → CoordStage
  unpin_sub : CoordStage
  wait_writing : CoordStage
  pinned : CoordStage  -- holds a `Shared`
  drop_load : CoordStage  -- its drop, from here to `drop_sub`
  drop_store : (count : ℕ) → CoordStage
  drop_sub : CoordStage
  lock_writers : (try : Bool) → CoordStage  -- `exclusive` and `try_exclusive`, from here to `scan`
  set_writing : (try : Bool) → CoordStage
  scan : (try : Bool) → (lane : ℕ) → CoordStage
  exclusive : CoordStage  -- holds an `Exclusive`
  clear_writing : CoordStage  -- its drop, and the end of a try that fails
  release_writers : CoordStage

pub record CoordTask : Type 0 where
  pub lane : ℕ
  pub stage : CoordStage

abbrev write_lane : CoordMem → ℕ → ℕ → CoordMem
write_lane m lane n = record m { readers = λ l. if l == lane then n else m.readers l }

-- The call that a thread makes between two operations.
unfoldable pub coord_call : CoordOp → ℕ → CoordStage → CoordStage
coord_call call_shared lane idle = pin
coord_call call_exclusive lane idle = lock_writers false
coord_call call_try_exclusive lane idle = lock_writers true
coord_call drop_guard lane pinned = if ltb lane lanes then drop_load else drop_sub
coord_call drop_guard lane exclusive = clear_writing
coord_call o lane s = s

-- The next access of a thread with this lane.
unfoldable pub coord_step : CoordOp → ℕ → CoordMem → CoordStage → CoordMem × CoordStage
coord_step c lane m pin = (write_lane m lane ((m.readers lane + 1) % 2 ^ 64), recheck)
coord_step c lane m recheck =
    (m, if m.writing then (if ltb lane lanes then unpin_load else unpin_sub) else pinned)
coord_step c lane m unpin_load = (m, unpin_store (m.readers lane))
coord_step c lane m (unpin_store count) = (write_lane m lane (count - 1), wait_writing)
coord_step c lane m unpin_sub =
    (write_lane m lane ((m.readers lane + 2 ^ 64 - 1) % 2 ^ 64), wait_writing)
coord_step c lane m wait_writing = (m, if m.writing then wait_writing else pin)
coord_step c lane m drop_load = (m, drop_store (m.readers lane))
coord_step c lane m (drop_store count) = (write_lane m lane (count - 1), idle)
coord_step c lane m drop_sub = (write_lane m lane ((m.readers lane + 2 ^ 64 - 1) % 2 ^ 64), idle)
coord_step c lane m (lock_writers try) =
    if m.writers
    then (m, if try then idle else lock_writers try)
    else (record m { writers = true }, set_writing try)
coord_step c lane m (set_writing try) = (record m { writing = true }, scan try 0)
coord_step c lane m (scan try l) = (
  m,
  if m.readers l == 0
      then (if l == lanes then exclusive else scan try (l + 1))
      else if try
      then clear_writing
      else scan try l,
)
coord_step c lane m clear_writing = (record m { writing = false }, release_writers)
coord_step c lane m release_writers = (record m { writers = false }, idle)
coord_step c lane m s = (m, coord_call c lane s)

abbrev pub coord_move : CoordOp → CoordMem → CoordTask → CoordMem × CoordTask
coord_move c m t = let (m', s) = coord_step c t.lane m t.stage in (m', record t { stage = s })

-- `register` of the thread `id`, in the loop at `offset` with these turns left: the lane, and the
-- owners.
unfoldable pub register_from : ℕ → ℕ → ℕ → List ℕ → ℕ × List ℕ
register_from zero offset id owners = (lanes, owners)
register_from (suc turns) offset id owners =
    let lane = (id + offset) % 2 ^ 64 % lanes in
    let owner = get_or owners lane 0 in
    let further = register_from turns (offset + 1) id owners in
    if owner == 0
    then (lane, set owners lane id)
    else if owner == id
    then (lane, owners)
    else further

abbrev pub register : ℕ → List ℕ → ℕ × List ℕ
register id owners = register_from lanes 0 id owners
