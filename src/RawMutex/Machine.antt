-- ===== src/RawMutex/Machine.antt =====
-- core/mutex.rs: the operations of `RawMutex`, one access to shared memory at a time. Left open to
-- the schedule: which operation a thread calls, whether a weak compare-exchange fails without
-- cause, whether the backoff of a slow path is completed, and when a futex wait returns.
use crossync.Prelude.{
  ℕ, ◌+◌, ◌-◌, ◌%◌, ◌^◌, Bool, true, false, not, ◌&&◌, ◌||◌, ◌==◌, if◌then◌else◌,
}
use crossync.RawMutex.Word.{
  unlocked, one_reader, one_writer, holder_bits, readers_parked, writers_parked, readers_count,
  is_writer_locked, admits_reader,
}

-- `InnerMutex` without its reference count. The futex words are 32 bits wide.
pub record Mem : Type 0 where
  pub state : ℕ
  pub readers_futex : ℕ
  pub writers_futex : ℕ

abbrev pub new : Mem
new = record { state = 0; readers_futex = 0; writers_futex = 0 }

pub data Op : Type 0 where
  lock_exclusive try_lock_exclusive lock_shared try_lock_shared : Op
  unlock downgrade stay : Op

pub record Choice : Type 0 where
  pub op : Op
  pub spurious : Bool
  pub completed : Bool

-- Where a thread stands, with the locals that are live there.
pub data Pc : Type 0 where
  idle : Pc
  exclusive : Pc  -- returned from an exclusive acquisition
  shared : Pc  -- returned from a shared acquisition
  try_exclusive_cas : Pc  -- `try_lock_exclusive`
  exclusive_cas : Pc  -- `lock_exclusive`
  exclusive_load : Pc  -- `lock_exclusive_slow`, from here to `exclusive_wait`
  exclusive_loop : (state : ℕ) → Pc
  exclusive_key : Pc
  exclusive_check : (w_key : ℕ) → Pc
  exclusive_wait : (w_key : ℕ) → Pc
  shared_fast_load : (blocking : Bool) → Pc  -- `try_lock_shared_fast`
  shared_fast_cas : (blocking : Bool) (state : ℕ) → Pc
  try_shared_load : Pc  -- `try_lock_shared_slow`
  try_shared_loop : (state : ℕ) → Pc
  shared_load : Pc  -- `lock_shared_slow`, from here to `shared_wait`
  shared_loop : (state : ℕ) → Pc
  shared_key : Pc
  shared_check : (w_key : ℕ) → Pc
  shared_wait : (w_key : ℕ) → Pc
  unlock_exclusive_cas : Pc  -- `unlock_exclusive`
  unlock_exclusive_load : Pc  -- `unlock_exclusive_slow`
  unlock_exclusive_loop : (state : ℕ) → Pc
  unlock_shared_sub : Pc  -- `unlock_shared`
  downgrade_load : Pc  -- `downgrade`
  downgrade_loop : (state : ℕ) → Pc
  wake_writers : Pc  -- the increment of the writers' futex, and the wake
  wake_readers : (holds : Bool) → Pc  -- the same for readers; `holds` after a downgrade

-- `compare_exchange` on the state word.
abbrev exchange : Mem → ℕ → ℕ → Pc → (ℕ → Pc) → Mem × Pc
exchange m old new won lost =
    if m.state == old then (record m { state = new }, won) else (m, lost m.state)

-- `compare_exchange_weak`
abbrev exchange_weak : Bool → Mem → ℕ → ℕ → Pc → (ℕ → Pc) → Mem × Pc
exchange_weak spurious m old new won lost =
    if m.state == old && not spurious then (record m { state = new }, won) else (m, lost m.state)

-- The call that a thread makes between two operations.
unfoldable pub call : Op → Pc → Pc
call lock_exclusive idle = exclusive_cas
call try_lock_exclusive idle = try_exclusive_cas
call lock_shared idle = shared_fast_load true
call try_lock_shared idle = shared_fast_load false
call unlock exclusive = unlock_exclusive_cas
call downgrade exclusive = downgrade_load
call unlock shared = unlock_shared_sub
call o p = p

-- `lock_exclusive_slow` with the state word last seen.
unfoldable pub exclusive_slow : Choice → Mem → ℕ → Mem × Pc
exclusive_slow c m state =
    if holder_bits state == 0
    then exchange_weak c.spurious m state (state % 2 + one_writer) exclusive exclusive_loop
    else if writers_parked state
    then (m, exclusive_key)
    else if not c.completed
    then (m, exclusive_loop state)
    else exchange_weak c.spurious m state (state + 2) exclusive_key exclusive_loop

-- `lock_shared_slow` with the state word last seen.
unfoldable pub shared_slow : Choice → Mem → ℕ → Mem × Pc
shared_slow c m state =
    if admits_reader state
    then exchange_weak c.spurious m state (state + one_reader) shared (λ _. shared_load)
    else if readers_parked state
    then (m, shared_key)
    else if not c.completed
    then (m, shared_load)
    else exchange_weak c.spurious m state (state + 1) shared_key (λ _. shared_load)

-- `unlock_exclusive_slow`: the parked flags stay only when a writer is parked, and then only
-- writers are woken.
unfoldable pub unlock_slow : Choice → Mem → ℕ → Mem × Pc
unlock_slow c m state =
    let parked = state % 4 in
    let next_state = if writers_parked parked then parked else unlocked in
    let after =
      if writers_parked parked
      then wake_writers
      else if readers_parked parked
      then wake_readers false
      else idle in
    exchange_weak c.spurious m state next_state after unlock_exclusive_loop

-- `downgrade`; its compare-exchange is not the weak one.
unfoldable pub downgrade_slow : Mem → ℕ → Mem × Pc
downgrade_slow m state =
    exchange m state (state % 4 + one_reader)
      (if readers_parked state then wake_readers true else shared) downgrade_loop

-- `unlock_shared`: `fetch_sub` wraps, and its old value decides on the wake.
unfoldable pub release_shared : Mem → Mem × Pc
release_shared m = (
  record m { state = (m.state + 2 ^ 64 - one_reader) % 2 ^ 64 },
  if readers_count m.state == 1 && writers_parked m.state then wake_writers else idle,
)

-- The next access of a thread.
unfoldable pub move : Choice → Mem → Pc → Mem × Pc
move c m try_exclusive_cas = exchange m unlocked one_writer exclusive (λ _. idle)
move c m exclusive_cas = exchange m unlocked one_writer exclusive (λ _. exclusive_load)
move c m exclusive_load = (m, exclusive_loop m.state)
move c m (exclusive_loop state) = exclusive_slow c m state
move c m exclusive_key = (m, exclusive_check m.writers_futex)
move c m (exclusive_check w_key) =
    if holder_bits m.state == 0 || not (writers_parked m.state)
    then (m, exclusive_load)
    else (m, exclusive_wait w_key)
move c m (exclusive_wait w_key) = (m, exclusive_key)
move c m (shared_fast_load blocking) =
    if admits_reader m.state
    then (m, shared_fast_cas blocking m.state)
    else (m, if blocking then shared_load else try_shared_load)
move c m (shared_fast_cas blocking state) =
    exchange m state (state + one_reader) shared
      (λ _. if blocking then shared_load else try_shared_load)
move c m try_shared_load = (m, try_shared_loop m.state)
move c m (try_shared_loop state) =
    if admits_reader state
    then exchange_weak c.spurious m state (state + one_reader) shared try_shared_loop
    else (m, idle)
move c m shared_load = (m, shared_loop m.state)
move c m (shared_loop state) = shared_slow c m state
move c m shared_key = (m, shared_check m.readers_futex)
move c m (shared_check w_key) =
    if not (is_writer_locked m.state) && not (writers_parked m.state)
    then (m, shared_load)
    else (m, shared_wait w_key)
move c m (shared_wait w_key) = (m, shared_load)
move c m unlock_exclusive_cas = exchange m one_writer unlocked idle (λ _. unlock_exclusive_load)
move c m unlock_exclusive_load = (m, unlock_exclusive_loop m.state)
move c m (unlock_exclusive_loop state) = unlock_slow c m state
move c m unlock_shared_sub = release_shared m
move c m downgrade_load = (m, downgrade_loop m.state)
move c m (downgrade_loop state) = downgrade_slow m state
move c m wake_writers = (record m { writers_futex = (m.writers_futex + 1) % 2 ^ 32 }, idle)
move c m (wake_readers holds) =
    (record m { readers_futex = (m.readers_futex + 1) % 2 ^ 32 }, if holds then shared else idle)
move c m p = (m, call c.op p)
