-- ===== src/Parker/Machine.antt =====
-- core/thread.rs: `park` and `unpark`, one access to shared memory at a time; `try_update` of the
-- standard library is one access. Left open to the schedule: what a thread calls, and which wait
-- returns without cause.
use crossync.Prelude.{ℕ, ◌+◌, ◌-◌, ◌^◌, Bool, ltb, ◌==◌, if◌then◌else◌}
use crossync.Futex.{WaitQueue, futex_sleep, futex_wake, can_return, futex_return}

pub record ParkMem : Type 0 where
  pub tokens : ℕ
  pub queue : WaitQueue

pub data ParkOp : Type 0 where
  park unpark stay : ParkOp

pub record ParkChoice : Type 0 where
  pub op : ParkOp
  pub spurious : Bool

pub data ParkStage : Type 0 where
  rest : ParkStage
  fast_consume : ParkStage  -- `park`, from here to `asleep`
  loop_consume : ParkStage
  wait_call : ParkStage
  asleep : ParkStage
  add_token : ParkStage  -- `unpark`, this and the next
  wake_call : ParkStage
  panicked : ParkStage

-- A thread with the number of its parks that have returned and of the tokens that it has added.
pub record ParkTask : Type 0 where
  pub stage : ParkStage
  pub parked : ℕ
  pub added : ℕ

-- `try_consume_token`
abbrev try_consume : ParkMem → ParkTask → ParkStage → ParkMem × ParkTask
try_consume m t next =
    if m.tokens == 0
    then (m, record t { stage = next })
    else (record m { tokens = m.tokens - 1 }, record t { stage = rest; parked = t.parked + 1 })

unfoldable pub park_step : ParkChoice → ParkMem → ParkStage → ParkTask → ParkMem × ParkTask
park_step c m rest t =
    (m, record t { stage = elim c.op [ park ↦ fast_consume | unpark ↦ add_token | stay ↦ rest ] })
park_step c m fast_consume t = try_consume m t loop_consume
park_step c m loop_consume t = try_consume m t wait_call
park_step c m wait_call t =
    if m.tokens == 0
    then (record m { queue = futex_sleep m.queue }, record t { stage = asleep })
    else (m, record t { stage = loop_consume })
park_step c m asleep t =
    if can_return c.spurious m.queue
    then (record m { queue = futex_return c.spurious m.queue }, record t { stage = loop_consume })
    else (m, t)
park_step c m add_token t =
    if ltb (m.tokens + 1) (2 ^ 32)
    then (record m { tokens = m.tokens + 1 }, record t { stage = wake_call; added = t.added + 1 })
    else (m, record t { stage = panicked })
park_step c m wake_call t = (record m { queue = futex_wake m.queue }, record t { stage = rest })
park_step c m panicked t = (m, t)

abbrev pub park_move : ParkChoice → ParkMem → ParkTask → ParkMem × ParkTask
park_move c m t = park_step c m t.stage t
