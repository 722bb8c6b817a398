-- ===== src/Parker/Moves.antt =====
-- core/thread.rs: what one access of one thread does to the tokens and to the waiting threads.
use crossync.Prelude.{ℕ, ◌+◌, ◌≤◌, ◌<◌, ◌≡◌, arith}
use crossync.Parker.Machine.{
  ParkMem, ParkChoice, ParkStage, loop_consume, wait_call, asleep, wake_call, ParkTask, park_step,
}

abbrev sleeps_at : ParkStage → ℕ
sleeps_at asleep = 1
sleeps_at _ = 0

-- In the loop of `park`, and not asleep.
abbrev loops_at : ParkStage → ℕ
loops_at loop_consume = 1
loops_at wait_call = 1
loops_at _ = 0

-- Between the token of an `unpark` and its wake.
abbrev wakes_at : ParkStage → ℕ
wakes_at wake_call = 1
wakes_at _ = 0

abbrev pub sleeps : ParkTask → ℕ
sleeps t = sleeps_at t.stage

abbrev pub loops : ParkTask → ℕ
loops t = loops_at t.stage

abbrev pub wakes : ParkTask → ℕ
wakes t = wakes_at t.stage

-- With `s` threads asleep, `l` in the loop and `k` about to wake, after `p` parks and `a` unparks.
pub record Parks (m : ParkMem) (s l k p a : ℕ) : Type 0 where
  pub queued : m.queue.waiting + m.queue.woken ≡ s
  pub seen : 0 < m.queue.waiting → m.tokens ≤ m.queue.woken + l + k
  pub balance : p + m.tokens ≡ a + 1

pub move-Parks :
    (c : ParkChoice) (m : ParkMem) (x : ParkStage) (t : ParkTask) (s l k p a : ℕ)
    → t.stage ≡ x
    → Parks m (s + sleeps t) (l + loops t) (k + wakes t) (p + t.parked) (a + t.added)
    → let (m', t') = park_step c m x t in
      Parks m' (s + sleeps t') (l + loops t') (k + wakes t') (p + t'.parked) (a + t'.added)
unfolding park_step
move-Parks c m x t s l k p a at_x h = ground (arith, at_x, h)
