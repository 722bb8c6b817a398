-- ===== src/Guarded/Machine.antt =====
-- sync/watch_guard_ref.rs, sync/watch_guard_mut.rs and core/serial.rs: calls that work on a value
-- under a guard, one access at a time: those of the lock, the load of the value, the store of the
-- new one, and those of the guard's drop. Left open to the schedule: which call a thread makes, and
-- what the lock leaves open.
use crossync.Prelude.{if◌then◌else◌, List, ◌∷◌, Option, none, some}
use crossync.Guarded.Lock.{
  Acquire, is_read, Request, acquire, release, proceed, Place, out, inside, Lock,
}

-- The calls on a value: how each takes the lock, and what it does to the value.
pub record Calls : Type 1 where
  pub Value : Type 0
  pub Reply : Type 0
  pub Call : Type 0
  pub mode : Call → Acquire
  pub body : Call → Value → Reply × Value

-- A call with its result; `none` is a try that did not get the lock.
abbrev pub Entry : Calls → Type 0
Entry K = K.Call × Option K.Reply

-- What a thread does with the value; where it stands with the lock is beside it.
pub data Body (K : Calls) : Type 0 where
  resting : Body K
  acquiring : K.Call → Body K
  loaded : K.Call → K.Value → Body K
  dropping : Body K

pub record GuardedMem (L : Lock) (K : Calls) : Type 0 where
  pub lock : L.Mem
  pub value : K.Value

-- A thread, with the calls that have returned to it, the last one first.
pub record GuardedTask (L : Lock) (K : Calls) : Type 0 where
  pub lock : L.Thread
  pub stage : Body K
  pub log : List (Entry K)

pub record GuardedChoice (L : Lock) (K : Calls) : Type 0 where
  pub lock : L.Choice
  pub call : Option K.Call

-- A guard for reading gives no way to store a value.
abbrev pub stored : (K : Calls) → K.Call → K.Value → K.Value → K.Value
stored K g new present = if is_read (K.mode g) then present else new

module _ (L : Lock) (K : Calls) where
  -- An access of the lock, which leaves the value alone.
  abbrev pub lock_move :
      Request
      → GuardedChoice L K
      → GuardedMem L K
      → GuardedTask L K
      → Body K
      → GuardedMem L K × GuardedTask L K
  lock_move q c m t s =
      let (k, p) = L.move (L.ask q c.lock) m.lock t.lock in
      (record m { lock = k }, record t { lock = p; stage = s })

  -- `acquiring` at the place where the lock stands.
  abbrev pub guarded_enter :
      K.Call
      → Place
      → GuardedChoice L K
      → GuardedMem L K
      → GuardedTask L K
      → GuardedMem L K × GuardedTask L K
  guarded_enter g (inside read) c m t = (m, record t { stage = loaded g m.value })
  guarded_enter g out c m t = (m, record t { stage = resting; log = (g, none) ∷ t.log })
  guarded_enter g p c m t = lock_move proceed c m t (acquiring g)

  abbrev pub guarded_leave :
      Place
      → GuardedChoice L K
      → GuardedMem L K
      → GuardedTask L K
      → GuardedMem L K × GuardedTask L K
  guarded_leave (inside read) c m t = lock_move release c m t dropping
  guarded_leave out c m t = (m, record t { stage = resting })
  guarded_leave p c m t = lock_move proceed c m t dropping

  abbrev pub guarded_begin :
      Option K.Call
      → GuardedChoice L K
      → GuardedMem L K
      → GuardedTask L K
      → GuardedMem L K × GuardedTask L K
  guarded_begin none c m t = (m, t)
  guarded_begin (some g) c m t = lock_move (acquire (K.mode g)) c m t (acquiring g)

  abbrev pub guarded_step :
      Body K
      → GuardedChoice L K
      → GuardedMem L K
      → GuardedTask L K
      → GuardedMem L K × GuardedTask L K
  guarded_step resting c m t = guarded_begin c.call c m t
  guarded_step (acquiring g) c m t = guarded_enter g (L.place t.lock) c m t
  guarded_step (loaded g old) c m t =
      let (r, new) = K.body g old in
      (
        record m { value = stored K g new m.value },
        record t { stage = dropping; log = (g, some r) ∷ t.log },
      )
  guarded_step dropping c m t = guarded_leave (L.place t.lock) c m t

  abbrev pub guarded_move :
      GuardedChoice L K → GuardedMem L K → GuardedTask L K → GuardedMem L K × GuardedTask L K
  guarded_move c m t = guarded_step t.stage c m t
