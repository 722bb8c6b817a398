-- ===== src/RwLock/Calls.antt =====
-- sync/rw_lock.rs: the methods of `RwLock<T>` that work on its value. A guard that is taken, used
-- and dropped by hand is the call of the same mode with a closure.
use crossync.Guarded.Lock.{Acquire, shared, exclusive, try_shared, try_exclusive}
use crossync.Guarded.Machine.{Calls}

-- The closures return a value of the same type here.
pub data RwCall (T : Type 0) : Type 0 where
  with_exclusive : (T → T × T) → RwCall T
  try_with_exclusive : (T → T × T) → RwCall T
  with_shared : (T → T) → RwCall T
  try_with_shared : (T → T) → RwCall T

module _ {T : Type 0} where
  abbrev pub rw_mode : RwCall T → Acquire
  rw_mode (with_exclusive _) = exclusive
  rw_mode (try_with_exclusive _) = try_exclusive
  rw_mode (with_shared _) = shared
  rw_mode (try_with_shared _) = try_shared

  abbrev pub rw_body : RwCall T → T → T × T
  rw_body (with_exclusive f) value = f value
  rw_body (try_with_exclusive f) value = f value
  rw_body (with_shared f) value = (f value, value)
  rw_body (try_with_shared f) value = (f value, value)

module _ (T : Type 0) where
  abbrev pub rw_calls : Calls
  rw_calls = record { Value = T; Reply = T; Call = RwCall T; mode = rw_mode; body = rw_body }
