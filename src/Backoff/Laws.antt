-- ===== src/Backoff/Laws.antt =====
-- core/backoff.rs: when a backoff is completed, and what its calls cost.
use crossync.Prelude.{
  ℕ, zero, suc, ◌+◌, ◌^◌, ◌≤◌, ◌≡◌, refl, min, List, [], ◌∷◌, arith, ltb, leb, if◌then◌else◌,
  replicate,
}
use native.Mathlib.Nat.{pow-le-pow_right}
use crossync.Backoff.{
  Backoff, Wait, hints, yield_now, new_backoff, reset, spin, yielder, snooze, is_completed,
  is_yielding, BackoffOp, do_reset, do_spin, do_yielder, do_snooze, apply_op, apply_ops,
}

-- The limits that `new` chooses, and the counter at most one past the last of them.
pub record InLimits (b : Backoff) : Type 0 where
  pub spins : b.spin_limit ≤ 12
  pub yields : b.yield_limit ≤ b.spin_limit + 10
  pub ordered : b.spin_limit + 2 ≤ b.yield_limit
  pub counted : b.step ≤ b.yield_limit + 1

new_backoff-InLimits : (adaptive : ℕ) → InLimits (new_backoff adaptive)
unfolding new_backoff
new_backoff-InLimits adaptive = ground arith

fresh_step : (adaptive : ℕ) → (new_backoff adaptive).step ≡ 0
unfolding new_backoff
fresh_step adaptive = refl

apply_op-InLimits : (o : BackoffOp) (b : Backoff) → InLimits b → InLimits (apply_op o b)
unfolding apply_op reset spin yielder snooze
apply_op-InLimits do_reset b h = ground arith
apply_op-InLimits do_spin b h = ground arith
apply_op-InLimits do_yielder b h = ground arith
apply_op-InLimits do_snooze b h = ground arith

apply_ops-InLimits : (os : List BackoffOp) (b : Backoff) → InLimits b → InLimits (apply_ops os b)
unfolding apply_ops
apply_ops-InLimits [] b h = h
apply_ops-InLimits (o ∷ os) b h = apply_ops-InLimits os (apply_op o b) (apply_op-InLimits o b h)

-- The cost of one wait in hints.
abbrev pub cost : Wait → ℕ
cost (hints n) = n
cost yield_now = 0

pow_le : (k : ℕ) → k ≤ 12 → 2 ^ k ≤ 4096
pow_le k h = pow-le-pow_right {n = 2} (omega arith) {i = k} {j = 12} h

-- Whatever calls were made before on a backoff, one more wait takes at most 4096 hints, and the
-- counter is at most 23.
pub backoff_bounds :
    (adaptive : ℕ) (os : List BackoffOp)
    → let b = apply_ops os (new_backoff adaptive) in
      (cost (spin b).0 ≤ 4096) × (cost (snooze b).0 ≤ 4096) × (b.step ≤ 23)
unfolding spin snooze
backoff_bounds adaptive os =
    let b = apply_ops os (new_backoff adaptive) in
    let h = apply_ops-InLimits os (new_backoff adaptive) (new_backoff-InLimits adaptive) in
    ground (arith, h.spins, h.yields, h.counted, pow_le b.step, pow_le (min b.step b.spin_limit))

-- The counter after `k` calls of `snooze`.
snooze_count :
    (k : ℕ) (b : Backoff)
    → b.step ≤ b.yield_limit + 1
    → let b' = apply_ops (replicate k do_snooze) b in
      (b'.step ≡ min (b.step + k) (b.yield_limit + 1))
      × (b'.spin_limit ≡ b.spin_limit)
      × (b'.yield_limit ≡ b.yield_limit)
unfolding apply_ops apply_op snooze
snooze_count zero b h = ground arith
snooze_count (suc k) b h =
    ground (arith, snooze_count k (record b { step = b.step + 1 }), snooze_count k b)

-- What a loop that only snoozes sees, after `k` calls on a fresh backoff. `is_yielding` is true from
-- the spin limit on. The next call gives 2 ^ k hints up to the spin limit, that limit included, where
-- `is_yielding` is true already, and yields to the scheduler after it. The backoff is completed once
-- the calls exceed the yield limit, and not sooner.
pub snooze_course :
    (adaptive k : ℕ)
    → let new = new_backoff adaptive in
      let b = apply_ops (replicate k do_snooze) new in
      (is_yielding b ≡ leb new.spin_limit k)
      × ((snooze b).0 ≡ (if leb k new.spin_limit then hints (2 ^ k) else yield_now))
      × (is_completed b ≡ ltb new.yield_limit k)
unfolding snooze is_yielding is_completed
snooze_course adaptive k =
    let h = new_backoff-InLimits adaptive in
    let (e, spins, yields) = snooze_count k (new_backoff adaptive) h.counted in
    ground (arith, e, spins, yields, h.ordered, fresh_step adaptive)
