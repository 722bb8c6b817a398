-- ===== src/Watch/Releases.antt =====
-- sync/guard_lock.rs and the guards: a drop makes the calls that give back what was acquired.
use crossync.Prelude.{ℕ, ◌≡◌, ◌≢◌, refl, arith, Bool, true, false, [], ◌∷◌}
use crossync.SerialMutex.Machine.{
  Stage, idle, holds, unlock, unlock_read_cas, unlock_write_swap, serial_call,
}
use crossync.RawMutex.Machine.{Pc, unlock_exclusive_cas, unlock_shared_sub, call}
use crossync.RawMutex.Machine
use crossync.Watch.Guards.{
  WatchGuard, LockCall, unlock_shared, unlock_exclusive, unlock_write, unlock_read, new_ref,
  new_mut, serial_ref, serial_mut, protect, guard_unlock, drop_guard, Cast, cast, kept, downcast,
}

abbrev guard_of : Cast → WatchGuard
guard_of (cast g) = g
guard_of (kept g) = g

-- A cast keeps what the drop releases, whether it succeeds or not.
pub drop_guard-downcast :
    (wanted : ℕ) (boxed : Bool) (found inner : ℕ) (g : WatchGuard)
    → drop_guard (guard_of (downcast wanted boxed found inner g)) ≡ drop_guard g
drop_guard-downcast wanted boxed found inner g = ground arith

-- The first access of a call on a `SerialMutex` and on a `RawMutex`.
abbrev serial_stage : LockCall → Stage
serial_stage (unlock_read _ _) = unlock_read_cas
serial_stage (unlock_write _) = unlock_write_swap
serial_stage _ = idle

abbrev raw_pc : LockCall → Pc
raw_pc (unlock_shared _) = unlock_shared_sub
raw_pc (unlock_exclusive _) = unlock_exclusive_cas
raw_pc _ = Machine.idle

-- The guard that was made for an acquisition unlocks in the mode in which the lock is held.
pub guard_unlock-call :
    (ptr lock owner : ℕ)
    → (serial_call unlock (holds true)
        ≡ serial_stage (guard_unlock (serial_ref ptr lock owner).lock))
      × (serial_call unlock (holds false) ≡ serial_stage (guard_unlock (serial_mut ptr lock).lock))
      × (call Machine.unlock Machine.shared ≡ raw_pc (guard_unlock (new_ref ptr lock).lock))
      × (call Machine.unlock Machine.exclusive ≡ raw_pc (guard_unlock (new_mut ptr lock).lock))
unfolding serial_call call
guard_unlock-call ptr lock owner = (refl, refl, refl, refl)

-- The storage is unpinned after the slot is unlocked.
pub drop_guard-protect :
    (g : WatchGuard) (lock : ℕ)
    → lock ≢ 0
    → drop_guard (protect g lock) ≡ guard_unlock g.lock ∷ unlock_shared lock ∷ []
drop_guard-protect g lock ne = ground (arith, ne)
