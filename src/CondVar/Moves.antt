-- ===== src/CondVar/Moves.antt =====
-- core/scondvar.rs: what one access of one thread does to the tokens and to the waiting threads.
use crossync.Prelude.{ℕ, ◌+◌, ◌%◌, ◌^◌, ◌≤◌, ◌<◌, ◌≡◌, arith}
use crossync.CondVar.Machine.{
  CondMem, CondChoice, CondStage, load_futex, load_tokens, take_token, wait_call, asleep, one_bump,
  one_wake, all_bump, all_wake, CondTask, cond_call, cond_step,
}

abbrev sleeps_at : CondStage → ℕ
sleeps_at asleep = 1
sleeps_at _ = 0

-- On the way to a token, or to the wake of a thread.
abbrev active_at : CondStage → ℕ
active_at load_futex = 1
active_at (load_tokens _) = 1
active_at (take_token _ _) = 1
active_at (wait_call _) = 1
active_at one_wake = 1
active_at _ = 0

-- A token is there, and the futex has not changed since.
abbrev adds_one_at : CondStage → ℕ
adds_one_at one_bump = 1
adds_one_at _ = 0

abbrev adds_all_at : CondStage → ℕ
adds_all_at all_bump = 1
adds_all_at _ = 0

abbrev wakes_all_at : CondStage → ℕ
wakes_all_at all_wake = 1
wakes_all_at _ = 0

abbrev pub sleeps : CondTask → ℕ
sleeps t = sleeps_at t.stage

abbrev pub active : CondTask → ℕ
active t = active_at t.stage

abbrev pub adds_one : CondTask → ℕ
adds_one t = adds_one_at t.stage

abbrev pub adds_all : CondTask → ℕ
adds_all t = adds_all_at t.stage

abbrev pub wakes_all : CondTask → ℕ
wakes_all t = wakes_all_at t.stage

-- With `s` threads asleep, `l` active, `o` and `a` that have added tokens and not changed the futex,
-- `w` that are about to wake all, and `b` changes of the futex.
pub record Waits (m : CondMem) (s l o a w b : ℕ) : Type 0 where
  pub queued : m.queue.waiting + m.queue.woken ≡ s
  pub changes : m.futex ≡ b % 2 ^ 32
  pub seen : b < 2 ^ 32 → 0 < m.queue.waiting → a + w ≡ 0 → m.to_wake ≤ m.queue.woken + l + o

-- A value of the futex that a thread found, after which it saw no token.
abbrev EmptyAt : CondMem → ℕ → ℕ → ℕ → ℕ → Type 0
EmptyAt m o a b f = b < 2 ^ 32 → m.futex ≡ f → a ≡ 0 → m.to_wake ≤ o

abbrev pub Saw : CondMem → ℕ → ℕ → ℕ → CondStage → Type 0
Saw m o a b (load_tokens f) = f ≤ b
Saw m o a b (take_token f n) = (f ≤ b) × (n ≡ 0 → EmptyAt m o a b f)
Saw m o a b (wait_call f) = (f ≤ b) × EmptyAt m o a b f
Saw m o a b _ = Unit

module _ (c : CondChoice) (m : CondMem) (x : CondStage) (t : CondTask) (s l o a w b : ℕ)
    (at_x : t.stage ≡ x)
    (h : Waits m
      (s + sleeps t)
      (l + active t)
      (o + adds_one t)
      (a + adds_all t)
      (w + wakes_all t)
      (b + t.bumps)) where
  pub move-Waits :
      Saw m (o + adds_one t) (a + adds_all t) (b + t.bumps) x
      → let (m', t') = cond_step c m x t in
        Waits m'
          (s + sleeps t')
          (l + active t')
          (o + adds_one t')
          (a + adds_all t')
          (w + wakes_all t')
          (b + t'.bumps)
  unfolding cond_step cond_call
  move-Waits k = ground (arith, at_x, h, k)

  pub move-Saw :
      Saw m (o + adds_one t) (a + adds_all t) (b + t.bumps) x
      → let (m', t') = cond_step c m x t in
        Saw m' (o + adds_one t') (a + adds_all t') (b + t'.bumps) t'.stage
  unfolding cond_step cond_call
  move-Saw k = ground (arith, at_x, h, k)

  pub move-Saw_other :
      (y : CondStage)
      → Saw m (o + adds_one t) (a + adds_all t) (b + t.bumps) y
      → let (m', t') = cond_step c m x t in
        Saw m' (o + adds_one t') (a + adds_all t') (b + t'.bumps) y
  unfolding cond_step cond_call
  move-Saw_other y k = ground (arith, at_x, h, k)
