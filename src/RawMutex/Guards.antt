-- ===== src/RawMutex/Guards.antt =====
-- core/mutex.rs: the lock as the guards of `RwLock` use it.
use crossync.Prelude.{◌+◌, ◌≡◌, ◌<◌, arith, Bool, true, false, if◌then◌else◌}
use crossync.Guarded.Lock.{
  shared, exclusive, try_shared, try_exclusive, Request, acquire, release, proceed, Place, out,
  coming, inside, leaving, downgrading, Lock, Follows, IsLawful,
}
use crossync.RawMutex.Machine.{
  Mem, Op, lock_exclusive, try_lock_exclusive, lock_shared, try_lock_shared, unlock, stay, Choice,
  Pc, idle, try_exclusive_cas, exclusive_cas, exclusive_load, exclusive_loop, exclusive_key,
  exclusive_check, exclusive_wait, shared_fast_load, shared_fast_cas, try_shared_load,
  try_shared_loop, shared_load, shared_loop, shared_key, shared_check, shared_wait, downgrade_load,
  downgrade_loop, wake_readers, call, exclusive_slow, shared_slow, unlock_slow, downgrade_slow,
  release_shared, move,
}
use crossync.RawMutex.Machine
use crossync.RawMutex.Ownership.{reads, writes, Inv, move-Inv, Inv-alone}

abbrev raw_op : Request → Op
raw_op (acquire shared) = lock_shared
raw_op (acquire exclusive) = lock_exclusive
raw_op (acquire try_exclusive) = try_lock_exclusive
raw_op (acquire try_shared) = try_lock_shared
raw_op release = unlock
raw_op proceed = stay

abbrev pub raw_place : Pc → Place
raw_place idle = out
raw_place Machine.exclusive = inside false
raw_place Machine.shared = inside true
raw_place try_exclusive_cas = coming try_exclusive
raw_place exclusive_cas = coming exclusive
raw_place exclusive_load = coming exclusive
raw_place (exclusive_loop _) = coming exclusive
raw_place exclusive_key = coming exclusive
raw_place (exclusive_check _) = coming exclusive
raw_place (exclusive_wait _) = coming exclusive
raw_place (shared_fast_load blocking) = coming (if blocking then shared else try_shared)
raw_place (shared_fast_cas blocking _) = coming (if blocking then shared else try_shared)
raw_place try_shared_load = coming try_shared
raw_place (try_shared_loop _) = coming try_shared
raw_place shared_load = coming shared
raw_place (shared_loop _) = coming shared
raw_place shared_key = coming shared
raw_place (shared_check _) = coming shared
raw_place (shared_wait _) = coming shared
raw_place downgrade_load = downgrading
raw_place (downgrade_loop _) = downgrading
raw_place (wake_readers true) = downgrading
raw_place _ = leaving

abbrev pub raw_lock : Lock
raw_lock = record {
  Mem = Mem;
  Thread = Pc;
  Choice = Choice;
  ask = λ q c. record c { op = raw_op q };
  move = move;
  place = raw_place;
}

move-Follows :
    (q : Request) (c : Choice) (m : Mem) (p : Pc)
    → Follows q (raw_place p) (raw_place (move (record c { op = raw_op q }) m p).1)
unfolding move call exclusive_slow shared_slow unlock_slow downgrade_slow release_shared
move-Follows q c m p = ground arith

inside-writes : (p : Pc) → raw_place p ≡ inside false → writes p ≡ 1
inside-writes p e = ground (arith, e)

inside-holds : (p : Pc) (read : Bool) → raw_place p ≡ inside read → 0 < reads p + writes p
inside-holds p read e = ground (arith, e)

pub raw_lock-IsLawful : IsLawful raw_lock Inv
raw_lock-IsLawful = record {
  keeps = λ c m ts i t e h. move-Inv c m ts i t e h;
  follows = λ q c m p. move-Follows q c m p;
  alone = λ m ts i j p q read h hi hj writing within.
      Inv-alone m ts h i j p q hi hj (inside-writes p writing) (inside-holds q read within);
}
