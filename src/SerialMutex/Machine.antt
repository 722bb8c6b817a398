-- ===== src/SerialMutex/Machine.antt =====
-- core/serial.rs: the operations of `SerialMutex`, one access to shared memory at a time. The unit
-- that moves is one acquisition, with the id of the thread that makes it: a thread that reads
-- several times has several, and a guard that leaves its thread keeps its id. Left open to the
-- schedule: when an operation starts, whether a weak compare-exchange fails without cause, whether
-- the backoff is completed, and which futex wait returns without cause.
use crossync.Prelude.{
  ℕ, ◌+◌, ◌-◌, ◌*◌, ◌/◌, ◌%◌, ◌^◌, Bool, true, false, not, ◌&&◌, ◌==◌, if◌then◌else◌,
}
use crossync.Futex.{WaitQueue, futex_sleep, futex_wake_all, can_return, futex_return}

-- `state & COUNT`, `state & WRITE != 0`, `state & WAIT != 0` and the owner's bits.
abbrev pub count_of : ℕ → ℕ
count_of state = state % 2 ^ 30

abbrev pub write_bit : ℕ → Bool
write_bit state = state / 2 ^ 30 % 2 == 1

abbrev pub wait_bit : ℕ → Bool
wait_bit state = state / 2 ^ 31 % 2 == 1

abbrev pub owner_of : ℕ → ℕ
owner_of state = state / 2 ^ 32

abbrev pub is_read_locked : ℕ → Bool
is_read_locked state = not (count_of state == 0)

-- `thread_owner() | if read { 1 } else { WRITE }`
abbrev pub desired : ℕ → Bool → ℕ
desired owner read = owner * 2 ^ 32 + (if read then 1 else 2 ^ 30)

pub record SerialMem : Type 0 where
  pub state : ℕ
  pub wake : ℕ
  pub queue : WaitQueue

pub data SerialOp : Type 0 where
  lock_read lock_write try_write unlock stay : SerialOp

pub record SerialChoice : Type 0 where
  pub op : SerialOp
  pub spurious : Bool
  pub completed : Bool

-- Where an acquisition stands, with the locals that are live there.
pub data Stage : Type 0 where
  idle : Stage
  holds : (read : Bool) → Stage
  try_cas : Stage  -- `try_write_guard`
  lock_cas : (read : Bool) → Stage  -- `lock`
  slow_sequence : (read : Bool) → Stage  -- `lock_slow`, from here to `slow_wait`
  slow_state : (read : Bool) (sequence : ℕ) → Stage
  slow_cas : (read : Bool) (state : ℕ) → Stage
  slow_park : (read : Bool) (state sequence : ℕ) → Stage
  slow_wait : (read : Bool) (sequence : ℕ) → Stage  -- `futex_wait`, this and the next
  asleep : (read : Bool) → Stage
  unlock_read_cas : Stage  -- `unlock_read`, this and the next
  unlock_read_loop : (state : ℕ) → Stage
  unlock_write_swap : Stage  -- `unlock_write`
  notify : Stage  -- `notify`, this and the next
  wake_all : Stage
  panicked : Stage  -- a failed assertion of `lock_slow`

-- One acquisition, of the thread with the id `owner`.
pub record Task : Type 0 where
  pub owner : ℕ
  pub stage : Stage

-- `next` in `lock_slow` for a word that is free, or has the same owner and passes the assertions.
abbrev pub grants : ℕ → Bool → ℕ → Bool
grants owner read state =
    if state == 0
    then true
    else owner_of state == owner
      && read
      && not (write_bit state)
      && not (count_of state == 2 ^ 30 - 1)

abbrev pub granted : ℕ → Bool → ℕ → ℕ
granted owner read state = if state == 0 then desired owner read else state + 1

abbrev cas : SerialMem → ℕ → ℕ → Stage → Stage → SerialMem × Stage
cas m old new won lost = if m.state == old then (record m { state = new }, won) else (m, lost)

-- The branches of `lock_slow` on the word that it has loaded.
unfoldable pub slow_branch : SerialChoice → ℕ → Bool → ℕ → ℕ → Stage
slow_branch c owner read sequence state =
    if grants owner read state
    then slow_cas read state
    else if owner_of state == owner
    then panicked
    else if c.completed
    then slow_park read state sequence
    else slow_sequence read

-- The loop of `unlock_read` with the word last seen.
unfoldable pub release_read : SerialChoice → SerialMem → ℕ → SerialMem × Stage
release_read c m state =
    let last = count_of state == 1 in
    if c.spurious
    then (m, unlock_read_loop m.state)
    else cas m state (if last then 0 else state - 1)
        (if last && wait_bit state then notify else idle) (unlock_read_loop m.state)

-- What an acquisition does between two operations.
unfoldable pub serial_call : SerialOp → Stage → Stage
serial_call lock_read idle = lock_cas true
serial_call lock_write idle = lock_cas false
serial_call try_write idle = try_cas
serial_call unlock (holds true) = unlock_read_cas
serial_call unlock (holds false) = unlock_write_swap
serial_call o s = s

-- The next access of an acquisition.
unfoldable pub serial_step : SerialChoice → ℕ → SerialMem → Stage → SerialMem × Stage
serial_step c owner m try_cas = cas m 0 (desired owner false) (holds false) idle
serial_step c owner m (lock_cas read) =
    cas m 0 (desired owner read) (holds read) (slow_sequence read)
serial_step c owner m (slow_sequence read) = (m, slow_state read m.wake)
serial_step c owner m (slow_state read sequence) = (m, slow_branch c owner read sequence m.state)
serial_step c owner m (slow_cas read state) =
    if c.spurious
    then (m, slow_sequence read)
    else cas m state (granted owner read state) (holds read) (slow_sequence read)
serial_step c owner m (slow_park read state sequence) =
    cas m state (if wait_bit state then state else state + 2 ^ 31) (slow_wait read sequence)
      (slow_sequence read)
serial_step c owner m (slow_wait read sequence) =
    if m.wake == sequence && not c.spurious
    then (record m { queue = futex_sleep m.queue }, asleep read)
    else (m, slow_sequence read)
serial_step c owner m (asleep read) =
    if can_return c.spurious m.queue
    then (record m { queue = futex_return c.spurious m.queue }, slow_sequence read)
    else (m, asleep read)
serial_step c owner m unlock_read_cas = cas m (desired owner true) 0 idle (unlock_read_loop m.state)
serial_step c owner m (unlock_read_loop state) = release_read c m state
serial_step c owner m unlock_write_swap =
    (record m { state = 0 }, if wait_bit m.state then notify else idle)
serial_step c owner m notify = (record m { wake = (m.wake + 1) % 2 ^ 32 }, wake_all)
serial_step c owner m wake_all = (record m { queue = futex_wake_all m.queue }, idle)
serial_step c owner m s = (m, serial_call c.op s)

unfoldable pub serial_move : SerialChoice → SerialMem → Task → SerialMem × Task
serial_move c m t = let (m', s) = serial_step c t.owner m t.stage in (m', record t { stage = s })
