-- ===== src/Backoff.antt =====
-- core/backoff.rs: `Backoff`, the counter behind every waiting loop. The number of processors, which
-- `available_parallelism` gives or 4 stands for, is a parameter.
pub mod Laws
mod Tests
use crossync.Prelude.{ℕ, ◌+◌, ◌^◌, min, Bool, ◌&&◌, List, [], ◌∷◌, ltb, leb, if◌then◌else◌}

pub record Backoff : Type 0 where
  pub step : ℕ
  pub spin_limit : ℕ
  pub yield_limit : ℕ

-- What one wait does: hints to the processor, or a yield to the scheduler.
pub data Wait : Type 0 where
  hints : (count : ℕ) → Wait
  yield_now : Wait

-- The `match` on the number of processors.
abbrev by_parallelism : ℕ → ℕ → ℕ → ℕ → ℕ → ℕ
by_parallelism adaptive few some_more many other =
    if leb 1 adaptive && leb adaptive 2
    then few
    else if leb 3 adaptive && leb adaptive 8
    then some_more
    else if leb 9 adaptive && leb adaptive 32
    then many
    else other

unfoldable pub new_backoff : ℕ → Backoff
new_backoff adaptive =
    let spin_limit = by_parallelism adaptive 6 8 10 12 in
    let yield_limit = by_parallelism adaptive 2 4 6 10 + spin_limit in
    record { step = 0; spin_limit = spin_limit; yield_limit = yield_limit }

unfoldable pub reset : Backoff → Backoff
reset b = record b { step = 0 }

unfoldable pub spin : Backoff → Wait × Backoff
spin b = (
  hints (2 ^ min b.step b.spin_limit),
  if leb b.step b.spin_limit then record b { step = b.step + 1 } else b,
)

unfoldable pub yielder : Backoff → Backoff
yielder b = record b { step = b.spin_limit + 1 }

unfoldable pub snooze : Backoff → Wait × Backoff
snooze b = (
  if leb b.step b.spin_limit then hints (2 ^ b.step) else yield_now,
  if leb b.step b.yield_limit then record b { step = b.step + 1 } else b,
)

unfoldable pub is_completed : Backoff → Bool
is_completed b = ltb b.yield_limit b.step

unfoldable pub is_yielding : Backoff → Bool
is_yielding b = leb b.spin_limit b.step

-- A sequence of calls between which the owner does as it likes.
pub data BackoffOp : Type 0 where
  do_reset do_spin do_yielder do_snooze : BackoffOp

unfoldable pub apply_op : BackoffOp → Backoff → Backoff
apply_op do_reset b = reset b
apply_op do_spin b = (spin b).1
apply_op do_yielder b = yielder b
apply_op do_snooze b = (snooze b).1

unfoldable pub apply_ops : List BackoffOp → Backoff → Backoff
apply_ops [] b = b
apply_ops (o ∷ os) b = apply_ops os (apply_op o b)
