-- ===== src/SerialMutex/Wakeups.antt =====
-- core/serial.rs: what the word and the futex say of the threads that sleep.
use crossync.Prelude.{ℕ, ◌+◌, ◌^◌, ◌≤◌, ◌<◌, ◌≡◌, ◌⊎◌, arith, true}
use crossync.SerialMutex.Machine.{
  SerialMem, SerialChoice, Stage, slow_state, slow_park, slow_wait, asleep, notify, wake_all, Task,
  owner_of, wait_bit, slow_branch, release_read, serial_call, serial_step,
}
use crossync.SerialMutex.Owner.{Stands, Owns, share}

-- Between a release that found the bit WAIT and the change of the futex, and up to the wake.
abbrev notifies_at : Stage → ℕ
notifies_at notify = 1
notifies_at _ = 0

abbrev wakes_at : Stage → ℕ
wakes_at wake_all = 1
wakes_at _ = 0

abbrev sleeps_at : Stage → ℕ
sleeps_at (asleep _) = 1
sleeps_at _ = 0

abbrev pub notifies : Task → ℕ
notifies t = notifies_at t.stage

abbrev pub wakes : Task → ℕ
wakes t = wakes_at t.stage

abbrev pub sleeps : Task → ℕ
sleeps t = sleeps_at t.stage

-- The bit WAIT is set only in a word that is owned, and is found by the release.
abbrev Flagged : SerialMem → ℕ → Type 0
Flagged m n = (wait_bit m.state ≡ true) ⊎ (0 < n)

-- After `k` accesses, with `s` threads asleep, `n` about to notify and `w` about to wake.
pub record Sleeps (k : ℕ) (m : SerialMem) (s n w : ℕ) : Type 0 where
  pub queued : m.queue.waiting + m.queue.woken ≡ s
  pub few : m.wake ≤ k
  pub owned : 0 < m.state → 0 < owner_of m.state
  pub flagged : 0 < m.queue.waiting → Flagged m (n + w)

-- A thread that is about to sleep left the bit, unless the futex has changed since.
abbrev pub Parked : SerialMem → ℕ → Stage → Type 0
Parked m n (slow_state read sequence) = sequence ≤ m.wake
Parked m n (slow_park read state sequence) = sequence ≤ m.wake
Parked m n (slow_wait read sequence) = (sequence ≤ m.wake) × (m.wake ≡ sequence → Flagged m n)
Parked m n _ = Unit

module _ (c : SerialChoice) (a : ℕ) (m : SerialMem) (x : Stage) (r k s n w : ℕ)
    (few : k + 1 < 2 ^ 32) (pos : 0 < a) (known : Stands a x) (own : Owns a m.state (r + share x))
    (h : Sleeps k m (s + sleeps_at x) (n + notifies_at x) (w + wakes_at x)) where
  pub step-Sleeps :
      Parked m (n + notifies_at x) x
      → let (m', y) = serial_step c a m x in
        Sleeps (k + 1) m' (s + sleeps_at y) (n + notifies_at y) (w + wakes_at y)
  unfolding serial_step serial_call slow_branch release_read
  step-Sleeps p = ground (arith, few, pos, known, own, h, p)

  pub step-Parked :
      Parked m (n + notifies_at x) x
      → let (m', y) = serial_step c a m x in Parked m' (n + notifies_at y) y
  unfolding serial_step serial_call slow_branch release_read
  step-Parked p = ground (arith, few, pos, known, own, h, p)

  pub step-Parked_other :
      (y : Stage)
      → Parked m (n + notifies_at x) y
      → let (m', z) = serial_step c a m x in Parked m' (n + notifies_at z) y
  unfolding serial_step serial_call slow_branch release_read
  step-Parked_other y p = ground (arith, few, pos, known, own, h, p)
