-- ===== src/Counts/Machine.antt =====
-- core/mod.rs, atomic/cell.rs and sync/rw_lock.rs: `clone`, `drop` and `into_inner` of a handle, one
-- access to shared memory at a time. A thread has a number of handles and may leave one where
-- another finds it. Left open to the schedule: what a thread does.
use crossync.Prelude.{ℕ, ◌+◌, ◌-◌, ◌%◌, ◌^◌, Bool, true, ltb, ◌==◌, if◌then◌else◌}

-- `ref_count`; the handles that no thread has, as those in a channel; how often the value was taken
-- out of the allocation, and whether the process was aborted.
pub record CountMem : Type 0 where
  pub ref_count : ℕ
  pub in_transit : ℕ
  pub freed : ℕ
  pub aborted : Bool

pub data CountOp : Type 0 where
  clone drop into_inner send receive stay : CountOp

-- Where a thread stands, with the number of its handles besides the one that it works on.
pub data CountStage : Type 0 where
  rest : (held : ℕ) → CountStage
  increment : (held : ℕ) → CountStage  -- `increment_ref_count`, this and the next
  check : (held old : ℕ) → CountStage
  decrement : (held : ℕ) → CountStage  -- `drop`, this and the next
  destroy : (held : ℕ) → CountStage
  load_count : (held : ℕ) → CountStage  -- `into_inner`, this and the next
  take_value : (held : ℕ) → CountStage

unfoldable pub count_call : CountOp → CountMem → ℕ → CountMem × CountStage
count_call clone m held = (m, if held == 0 then rest held else increment held)
count_call drop m held = (m, if held == 0 then rest held else decrement (held - 1))
count_call into_inner m held = (m, if held == 0 then rest held else load_count (held - 1))
count_call send m held =
    if held == 0
    then (m, rest held)
    else (record m { in_transit = m.in_transit + 1 }, rest (held - 1))
count_call receive m held =
    if m.in_transit == 0
    then (m, rest held)
    else (record m { in_transit = m.in_transit - 1 }, rest (held + 1))
count_call stay m held = (m, rest held)

unfoldable pub count_step : CountOp → CountMem → CountStage → CountMem × CountStage
count_step op m (rest held) = count_call op m held
count_step op m (increment held) =
    (record m { ref_count = (m.ref_count + 1) % 2 ^ 64 }, check held m.ref_count)
count_step op m (check held old) =
    if ltb old (2 ^ 63 - 1)
    then (m, rest (held + 1))
    else (record m { aborted = true }, check held old)
count_step op m (decrement held) = (
  record m { ref_count = (m.ref_count + 2 ^ 64 - 1) % 2 ^ 64 },
  if m.ref_count == 1 then destroy held else rest held,
)
count_step op m (destroy held) = (record m { freed = m.freed + 1 }, rest held)
count_step op m (load_count held) =
    (m, if m.ref_count == 1 then take_value held else decrement held)
count_step op m (take_value held) = (record m { freed = m.freed + 1 }, rest held)

-- After an abort nothing moves.
unfoldable pub count_move : CountOp → CountMem → CountStage → CountMem × CountStage
count_move op m s = if m.aborted then (m, s) else count_step op m s
