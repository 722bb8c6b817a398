-- ===== src/Coord/Moves.antt =====
-- core/coord.rs: what one access of one thread does to the counts of the lanes and to the flags.
use crossync.Prelude.{ℕ, ◌+◌, ◌^◌, ◌≤◌, ◌<◌, ◌≡◌, ◌≢◌, ◌⊎◌, arith, false, if◌then◌else◌}
use crossync.Coord.Machine.{
  lanes, CoordMem, CoordOp, CoordStage, recheck, unpin_load, unpin_store, unpin_sub, pinned,
  drop_load, drop_store, drop_sub, set_writing, scan, exclusive, clear_writing, release_writers,
  coord_call, coord_step,
}

-- A thread counts in its lane, between its increment and its decrement.
abbrev pub counts : CoordStage → ℕ
counts recheck = 1
counts unpin_load = 1
counts (unpin_store _) = 1
counts unpin_sub = 1
counts pinned = 1
counts drop_load = 1
counts (drop_store _) = 1
counts drop_sub = 1
counts _ = 0

-- It may touch the storage.
abbrev pub pins : CoordStage → ℕ
pins pinned = 1
pins drop_load = 1
pins (drop_store _) = 1
pins drop_sub = 1
pins _ = 0

-- It has the writers' lock with the intent set, or without.
abbrev pub intends : CoordStage → ℕ
intends (scan _ _) = 1
intends exclusive = 1
intends clear_writing = 1
intends _ = 0

abbrev pub prepares : CoordStage → ℕ
prepares (set_writing _) = 1
prepares release_writers = 1
prepares _ = 0

-- The lanes that it has found empty.
abbrev pub scanned : CoordStage → ℕ
scanned (scan _ l) = l
scanned exclusive = 65
scanned _ = 0

-- The locals that are live: a decrement in two accesses is that of a lane of its own.
abbrev pub Local : CoordMem → ℕ → CoordStage → Type 0
Local m lane (unpin_store n) = (lane < lanes) × (m.readers lane ≡ n)
Local m lane (drop_store n) = (lane < lanes) × (m.readers lane ≡ n)
Local m lane unpin_load = lane < lanes
Local m lane drop_load = lane < lanes
Local m lane (scan _ l) = l ≤ lanes
Local m lane _ = Unit

pub record Flags (m : CoordMem) (a b : ℕ) : Type 0 where
  pub lock : a + b ≡ (if m.writers then 1 else 0)
  pub intent : b ≡ (if m.writing then 1 else 0)

module _ (c : CoordOp) (lane : ℕ) (m : CoordMem) (s : CoordStage) where
  -- The lane's count with `r` threads besides.
  pub step-count :
      (r : ℕ)
      → r + 1 < 2 ^ 64
      → Local m lane s
      → m.readers lane ≡ r + counts s
      → (coord_step c lane m s).0.readers lane ≡ r + counts (coord_step c lane m s).1
  unfolding coord_step coord_call
  step-count r lt k e = ground arith

  pub step-elsewhere : (l : ℕ) → l ≢ lane → (coord_step c lane m s).0.readers l ≡ m.readers l
  unfolding coord_step coord_call
  step-elsewhere l ne = ground arith

  pub step-Local : Local m lane s → Local (coord_step c lane m s).0 lane (coord_step c lane m s).1
  unfolding coord_step coord_call
  step-Local k = ground arith

  pub step-Flags :
      (a b : ℕ)
      → Flags m (a + prepares s) (b + intends s)
      → Flags
          (coord_step c lane m s).0
          (a + prepares (coord_step c lane m s).1)
          (b + intends (coord_step c lane m s).1)
  unfolding coord_step coord_call
  step-Flags a b f = ground arith

  -- A pin is new only while no writer intends.
  pub step-pins : (pins (coord_step c lane m s).1 ≤ pins s) ⊎ (m.writing ≡ false)
  unfolding coord_step coord_call
  step-pins = ground arith

  -- A lane is found empty only while it is.
  pub step-scanned :
      Local m lane s
      → (scanned (coord_step c lane m s).1 ≤ scanned s)
        ⊎ ((scanned (coord_step c lane m s).1 ≡ scanned s + 1) × (m.readers (scanned s) ≡ 0))
  unfolding coord_step coord_call
  step-scanned k = ground arith

pub scanned-intends : (s : CoordStage) → 0 < scanned s → (intends s ≡ 1) × (pins s ≡ 0)
scanned-intends s h = ground arith

pub pins-counts : (s : CoordStage) → pins s ≤ counts s
pins-counts s = ground arith
