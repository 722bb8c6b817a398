-- ===== src/Cell/Calls.antt =====
-- atomic/cell.rs: the methods of `AtomicCell<T>` that work on its value. A guard that is taken, used
-- and dropped by hand is `with` or `with_mut`. The guard that a failed `compare_exchange` returns is
-- taken as dropped at once.
use crossync.Prelude.{Bool, if◌then◌else◌}
use crossync.Guarded.Lock.{Acquire, shared, exclusive}
use crossync.Guarded.Machine.{Calls}

pub data CellCall (T : Type 0) : Type 0 where
  with : (T → T) → CellCall T
  with_mut : (T → T × T) → CellCall T
  update : (T → T) → CellCall T
  swap : T → CellCall T
  store : T → CellCall T
  compare_exchange : T → T → CellCall T

-- `guarded` is the error of `compare_exchange`.
pub data CellReply (T : Type 0) : Type 0 where
  done : CellReply T
  value : T → CellReply T
  exchanged : T → CellReply T
  guarded : CellReply T

module _ {T : Type 0} where
  abbrev pub cell_mode : CellCall T → Acquire
  cell_mode (with _) = shared
  cell_mode _ = exclusive

-- `T: Eq` is a test of which nothing is assumed.
module _ {T : Type 0} (equal : T → T → Bool) where
  abbrev pub cell_body : CellCall T → T → CellReply T × T
  cell_body (with f) old = (value (f old), old)
  cell_body (with_mut f) old = let (r, new) = f old in (value r, new)
  cell_body (update f) old = (done, f old)
  cell_body (swap val) old = (value old, val)
  cell_body (store val) old = (done, val)
  cell_body (compare_exchange current new) old =
      if equal old current then (exchanged old, new) else (guarded, old)

  abbrev pub cell_calls : Calls
  cell_calls = record {
    Value = T;
    Reply = CellReply T;
    Call = CellCall T;
    mode = cell_mode;
    body = cell_body;
  }
