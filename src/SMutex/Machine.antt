-- ===== src/SMutex/Machine.antt =====
-- core/smutex.rs: the operations of `SMutex`, one access to shared memory at a time. A thread has an
-- id, which is not 0, and fewer than 2 ^ 64 guards. Left open to the schedule: what a thread calls,
-- which of its guards it drops, whether a weak compare-exchange fails without cause, whether the
-- backoff yields, and when a futex wait returns.
use crossync.Prelude.{
  ℕ, ◌+◌, ◌-◌, ◌%◌, ◌^◌, Bool, true, false, not, ◌&&◌, ◌||◌, ltb, ◌==◌, if◌then◌else◌,
}

pub record SMem : Type 0 where
  pub state : ℕ
  pub owner : ℕ
  pub recursion : ℕ

pub data SOp : Type 0 where
  lock lock_group drop_guard stay : SOp

pub record SChoice : Type 0 where
  pub op : SOp
  pub is_group : Bool
  pub spurious : Bool
  pub yielding : Bool
  pub woken : Bool

-- Where a thread stands, with the locals that are live there: `own` is whether its guards are those
-- of the owner, and `held` their number.
pub data SStage : Type 0 where
  rest : (own : Bool) → (held : ℕ) → SStage
  lock_owner : (own : Bool) → (held : ℕ) → SStage  -- `lock`, from here to `set_recursion`
  lock_recurse : (held : ℕ) → SStage
  lock_cas : (held : ℕ) → SStage
  lock_load : (held : ℕ) → SStage
  lock_wait : (held : ℕ) → (state : ℕ) → SStage
  set_owner : SStage
  set_recursion : SStage
  group_owner : (own : Bool) → (held : ℕ) → SStage  -- `lock_group`, from here to `group_wait`
  group_recurse : (held : ℕ) → SStage
  group_load : (held : ℕ) → SStage
  group_loop : (held : ℕ) → (state : ℕ) → SStage
  group_spin : (held : ℕ) → SStage
  group_wait : (held : ℕ) → SStage
  unlock_owner : (group : Bool) → (own : Bool) → (held : ℕ) → SStage  -- the drop of a guard
  unlock_sub : (held : ℕ) → SStage
  clear_owner : SStage
  unlock_store : SStage
  group_sub : (held : ℕ) → SStage
  unlock_wake : (held : ℕ) → SStage
  panicked : (held : ℕ) → SStage

pub record STask : Type 0 where
  pub id : ℕ
  pub stage : SStage

-- The call that a thread makes between two operations. The guards of a thread that is not the owner
-- are those of `lock_group`.
unfoldable pub smutex_call : SChoice → Bool → ℕ → SStage
smutex_call c own held = elim c.op [
  | lock ↦ if ltb (held + 1) (2 ^ 64) then lock_owner own held else rest own held
  | lock_group ↦ if ltb (held + 1) (2 ^ 64) then group_owner own held else rest own held
  | drop_guard ↦ if held == 0 then rest own held else unlock_owner (c.is_group || not own) own held
  | stay ↦ rest own held
]

-- The next access of the thread `id`.
unfoldable pub smutex_step : SChoice → ℕ → SMem → SStage → SMem × SStage
smutex_step c id m (rest own held) = (m, smutex_call c own held)
smutex_step c id m (lock_owner own held) =
    (m, if m.owner == id then lock_recurse held else lock_cas held)
smutex_step c id m (lock_recurse held) =
    (record m { recursion = (m.recursion + 1) % 2 ^ 64 }, rest true (held + 1))
smutex_step c id m (lock_cas held) =
    if m.state == 0 && not c.spurious
    then (record m { state = 1 }, set_owner)
    else (m, if c.yielding then lock_load held else lock_cas held)
smutex_step c id m (lock_load held) =
    (m, if m.state == 0 then lock_cas held else lock_wait held m.state)
smutex_step c id m (lock_wait held state) =
    (m, if c.woken || not (m.state == state) then lock_load held else lock_wait held state)
smutex_step c id m set_owner = (record m { owner = id }, set_recursion)
smutex_step c id m set_recursion = (record m { recursion = 1 }, rest true 1)
smutex_step c id m (group_owner own held) =
    (m, if m.owner == id then group_recurse held else group_load held)
smutex_step c id m (group_recurse held) =
    (record m { recursion = (m.recursion + 1) % 2 ^ 64 }, rest true (held + 1))
smutex_step c id m (group_load held) = (m, group_loop held m.state)
smutex_step c id m (group_loop held state) =
    if state % 2 == 0
    then (if ltb (state + 2) (2 ^ 32)
        then (if m.state == state && not c.spurious
            then (record m { state = state + 2 }, rest false (held + 1))
            else (m, group_loop held m.state))
        else (m, panicked held))
    else (m, group_spin held)
smutex_step c id m (group_spin held) =
    (m, if m.state % 2 == 0 then group_load held else group_wait held)
smutex_step c id m (group_wait held) =
    (m, if c.woken || not (m.state == 1) then group_spin held else group_wait held)
smutex_step c id m (unlock_owner group own held) =
    (m, if m.owner == id then unlock_sub held else if group then group_sub held else panicked held)
smutex_step c id m (unlock_sub held) = (
  record m { recursion = (m.recursion + 2 ^ 64 - 1) % 2 ^ 64 },
  if ltb 1 m.recursion then rest true (held - 1) else clear_owner,
)
smutex_step c id m clear_owner = (record m { owner = 0 }, unlock_store)
smutex_step c id m unlock_store = (record m { state = 0 }, unlock_wake 0)
smutex_step c id m (group_sub held) = (
  record m { state = (m.state + 2 ^ 32 - 2) % 2 ^ 32 },
  if m.state == 2 then unlock_wake (held - 1) else rest false (held - 1),
)
smutex_step c id m (unlock_wake held) = (m, rest false held)
smutex_step c id m (panicked held) = (m, panicked held)

abbrev pub smutex_move : SChoice → SMem → STask → SMem × STask
smutex_move c m t = let (m', s) = smutex_step c t.id m t.stage in (m', record t { stage = s })
