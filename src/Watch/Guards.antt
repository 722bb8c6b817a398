-- ===== src/Watch/Guards.antt =====
-- sync/guard_lock.rs, sync/watch_guard_ref.rs and sync/watch_guard_mut.rs: guards as values. Pointers
-- and type ids are numbers; 0 is the null pointer.
use crossync.Prelude.{ℕ, Bool, ◌==◌, if◌then◌else◌, List, [], ◌∷◌}

pub data Kind : Type 0 where
  shared exclusive serial_read serial_write : Kind

pub record GuardLock : Type 0 where
  pub lock : ℕ
  pub owner : ℕ
  pub kind : Kind

-- `WatchGuardRef` and `WatchGuardMut`, which have the same fields.
pub record WatchGuard : Type 0 where
  pub data_ptr : ℕ
  pub lock : GuardLock
  pub protection : ℕ

-- A call on a lock, by its address.
pub data LockCall : Type 0 where
  unlock_shared unlock_exclusive unlock_write : (lock : ℕ) → LockCall
  unlock_read : (lock owner : ℕ) → LockCall

abbrev pub guard_lock : Kind → ℕ → ℕ → GuardLock
guard_lock k lock owner = record { lock = lock; owner = owner; kind = k }

-- `new` and `serial` of the two guards.
abbrev pub new_ref : ℕ → ℕ → WatchGuard
new_ref ptr lock = record { data_ptr = ptr; lock = guard_lock shared lock 0; protection = 0 }

abbrev pub new_mut : ℕ → ℕ → WatchGuard
new_mut ptr lock = record { data_ptr = ptr; lock = guard_lock exclusive lock 0; protection = 0 }

abbrev pub serial_ref : ℕ → ℕ → ℕ → WatchGuard
serial_ref ptr lock owner = record {
  data_ptr = ptr;
  lock = guard_lock serial_read lock owner;
  protection = 0;
}

abbrev pub serial_mut : ℕ → ℕ → WatchGuard
serial_mut ptr lock = record {
  data_ptr = ptr;
  lock = guard_lock serial_write lock 0;
  protection = 0;
}

abbrev pub protect : WatchGuard → ℕ → WatchGuard
protect g lock = record g { protection = lock }

abbrev unlock_kind : Kind → ℕ → ℕ → LockCall
unlock_kind shared lock owner = unlock_shared lock
unlock_kind exclusive lock owner = unlock_exclusive lock
unlock_kind serial_read lock owner = unlock_read lock owner
unlock_kind serial_write lock owner = unlock_write lock

abbrev pub guard_unlock : GuardLock → LockCall
guard_unlock g = unlock_kind g.kind g.lock g.owner

-- `Drop`: the calls that it makes, in their order.
abbrev pub drop_guard : WatchGuard → List LockCall
drop_guard g =
    guard_unlock g.lock ∷ (if g.protection == 0 then [] else unlock_shared g.protection ∷ [])

-- `Result` of `downcast`.
pub data Cast : Type 0 where
  cast : WatchGuard → Cast
  kept : WatchGuard → Cast

-- `downcast` to the type `wanted`: whether the guarded value is a `Box<dyn Any>`, and the type and the
-- address of what is in it, are arguments.
abbrev pub downcast : ℕ → Bool → ℕ → ℕ → WatchGuard → Cast
downcast wanted boxed found inner g =
    if boxed
    then (if found == wanted then cast (record g { data_ptr = inner }) else kept g)
    else kept g
