-- ===== src/CondVar/Machine.antt =====
-- core/scondvar.rs: `wait`, `notify_one` and `notify_all`, one access to shared memory at a time. The
-- unlock of the mutex in `wait` and its lock at the end are steps that the schedule lets happen. Left
-- open to it as well: what a thread calls, which weak compare-exchange fails and which wait returns
-- without cause.
use crossync.Prelude.{ℕ, ◌+◌, ◌-◌, ◌%◌, ◌^◌, Bool, not, ◌&&◌, ◌==◌, if◌then◌else◌}
use crossync.Futex.{WaitQueue, futex_sleep, futex_wake, futex_wake_all, can_return, futex_return}

pub record CondMem : Type 0 where
  pub futex : ℕ
  pub waiters : ℕ
  pub to_wake : ℕ
  pub queue : WaitQueue

pub data CondOp : Type 0 where
  wait notify_one notify_all stay : CondOp

pub record CondChoice : Type 0 where
  pub op : CondOp
  pub spurious : Bool

pub data CondStage : Type 0 where
  rest : CondStage
  register : CondStage  -- `wait`, from here to `relock`
  unlock : CondStage
  load_futex : CondStage
  load_tokens : (futex_val : ℕ) → CondStage
  take_token : (futex_val : ℕ) (to_wake : ℕ) → CondStage
  wait_call : (futex_val : ℕ) → CondStage
  asleep : CondStage
  unregister : CondStage
  relock : CondStage
  one_load : CondStage  -- `notify_one`, from here to `one_wake`
  one_add : CondStage
  one_bump : CondStage
  one_wake : CondStage
  all_load : CondStage  -- `notify_all`, from here to `all_wake`
  all_add : (waiters : ℕ) → CondStage
  all_bump : CondStage
  all_wake : CondStage

-- A thread with the number of times that it has changed the futex.
pub record CondTask : Type 0 where
  pub stage : CondStage
  pub bumps : ℕ

abbrev goes_to : CondTask → CondStage → CondTask
goes_to t s = record t { stage = s }

unfoldable pub cond_call : CondOp → CondStage
cond_call wait = register
cond_call notify_one = one_load
cond_call notify_all = all_load
cond_call stay = rest

unfoldable pub cond_step : CondChoice → CondMem → CondStage → CondTask → CondMem × CondTask
cond_step c m rest t = (m, goes_to t (cond_call c.op))
cond_step c m register t = (record m { waiters = (m.waiters + 1) % 2 ^ 64 }, goes_to t unlock)
cond_step c m unlock t = (m, goes_to t load_futex)
cond_step c m load_futex t = (m, goes_to t (load_tokens m.futex))
cond_step c m (load_tokens f) t = (m, goes_to t (take_token f m.to_wake))
cond_step c m (take_token f to_wake) t =
    if to_wake == 0
    then (m, goes_to t (wait_call f))
    else if m.to_wake == to_wake && not c.spurious
    then (record m { to_wake = to_wake - 1 }, goes_to t unregister)
    else (m, goes_to t (take_token f m.to_wake))
cond_step c m (wait_call f) t =
    if m.futex == f
    then (record m { queue = futex_sleep m.queue }, goes_to t asleep)
    else (m, goes_to t load_futex)
cond_step c m asleep t =
    if can_return c.spurious m.queue
    then (record m { queue = futex_return c.spurious m.queue }, goes_to t load_futex)
    else (m, t)
cond_step c m unregister t =
    (record m { waiters = (m.waiters + 2 ^ 64 - 1) % 2 ^ 64 }, goes_to t relock)
cond_step c m relock t = (m, goes_to t rest)
cond_step c m one_load t = (m, goes_to t (if m.waiters == 0 then rest else one_add))
cond_step c m one_add t = (record m { to_wake = (m.to_wake + 1) % 2 ^ 64 }, goes_to t one_bump)
cond_step c m one_bump t = (
  record m { futex = (m.futex + 1) % 2 ^ 32 },
  record t { stage = one_wake; bumps = t.bumps + 1 },
)
cond_step c m one_wake t = (record m { queue = futex_wake m.queue }, goes_to t rest)
cond_step c m all_load t = (m, goes_to t (if m.waiters == 0 then rest else all_add m.waiters))
cond_step c m (all_add w) t = (record m { to_wake = (m.to_wake + w) % 2 ^ 64 }, goes_to t all_bump)
cond_step c m all_bump t = (
  record m { futex = (m.futex + 1) % 2 ^ 32 },
  record t { stage = all_wake; bumps = t.bumps + 1 },
)
cond_step c m all_wake t = (record m { queue = futex_wake_all m.queue }, goes_to t rest)

abbrev pub cond_move : CondChoice → CondMem → CondTask → CondMem × CondTask
cond_move c m t = cond_step c m t.stage t
