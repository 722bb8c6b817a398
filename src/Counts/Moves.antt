-- ===== src/Counts/Moves.antt =====
-- core/mod.rs, atomic/cell.rs and sync/rw_lock.rs: what one access of one thread does to the count.
use crossync.Prelude.{ℕ, ◌+◌, ◌-◌, ◌^◌, ◌≤◌, ◌<◌, ◌≡◌, arith, ltb, if◌then◌else◌}
use crossync.Counts.Machine.{
  CountMem, CountOp, CountStage, rest, increment, check, decrement, destroy, load_count, take_value,
  count_call, count_step, count_move,
}

-- The handles of a thread, those that it is about to make or to give up included.
abbrev pub handles : CountStage → ℕ
handles (rest held) = held
handles (increment held) = held
handles (check held _) = held + 1
handles (decrement held) = held + 1
handles (destroy held) = held
handles (load_count held) = held + 1
handles (take_value held) = held + 1

-- Between the decrement that found the last handle and the end of the allocation.
abbrev pub destroys : CountStage → ℕ
destroys (destroy _) = 1
destroys _ = 0

abbrev pub takes : CountStage → ℕ
takes (take_value _) = 1
takes _ = 0

-- About to abort.
abbrev pub doomed : CountStage → ℕ
doomed (check _ old) = if ltb old (2 ^ 63 - 1) then 0 else 1
doomed _ = 0

-- A thread that clones has a handle.
abbrev pub Clones : CountStage → Type 0
Clones (increment held) = 0 < held
Clones (check held _) = 0 < held
Clones _ = Unit

-- The count with `a` handles of threads, `b` threads that destroy, `k` that take, and `d` doomed.
pub record Tally (m : CountMem) (a b k d : ℕ) : Type 0 where
  pub exact : m.freed ≡ 0 → m.ref_count ≡ a + m.in_transit
  pub bound : m.ref_count ≤ 2 ^ 63 - 1 + d
  pub once : m.freed + b ≤ 1
  pub gone : 0 < m.freed + b → a + m.in_transit ≡ 0
  pub live : m.freed + b ≡ 0 → 0 < a + m.in_transit
  pub sole : 0 < k → a + m.in_transit ≡ 1

module _ (op : CountOp) (m : CountMem) (s : CountStage) where
  pub move-Clones : Clones s → Clones (count_move op m s).1
  unfolding count_move count_step count_call
  move-Clones k = ground (arith, k)

  pub move-Tally :
      (a b k d n : ℕ)
      → d < n
      → k ≤ a
      → n ≤ 2 ^ 63
      → Clones s
      → Tally m (a + handles s) (b + destroys s) (k + takes s) (d + doomed s)
      → let (m', s') = count_move op m s in
        Tally m' (a + handles s') (b + destroys s') (k + takes s') (d + doomed s')
  unfolding count_move count_step count_call
  move-Tally a b k d n few own size c h = ground (arith, few, own, size, c, h)
