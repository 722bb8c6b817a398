-- ===== src/Buffer/Ring.antt =====
-- atomic/buffer.rs: positions are taken modulo 2 ^ 64 and slots modulo the capacity, which divides it.
use native.Mathlib.Nat.{
  mod-add-mod, mod-eq_of_lt, mod-eq-sub-mod, mod-lt, add-mul-mod_self_right, mul_assoc, mul_comm,
}
use native.Mathlib.Decide.{dec_lt}
use crossync.Prelude.{
  ℕ, ◌+◌, ◌-◌, ◌*◌, ◌/◌, ◌%◌, ◌^◌, ◌<◌, ◌≡◌, ◌≢◌, ◌⊎◌, inl, inr, sym, ◌∙◌, ap, arith,
}

-- The whole turns in `x`, in units of `n`.
turns : (x n m : ℕ) → m * n ≡ 2 ^ 64 → x / 2 ^ 64 * m * n ≡ 2 ^ 64 * (x / 2 ^ 64)
turns x n m e = mul_assoc (x / 2 ^ 64) m n ∙ ap (λ t. x / 2 ^ 64 * t) e ∙ mul_comm _ _

-- The slot of a position survives the wrap of the position.
pub wrap_slot : (x i n m : ℕ) → m * n ≡ 2 ^ 64 → (x % 2 ^ 64 + i) % n ≡ (x + i) % n
wrap_slot x i n m e =
    sym (add-mul-mod_self_right (x % 2 ^ 64 + i) (x / 2 ^ 64 * m) n)
    ∙ ap (λ y. y % n) (omega (arith, turns x n m e))

-- One turn round the ring at most.
one_turn :
    (r i n : ℕ)
    → r < n
    → i < n
    → ((r + i) % n ≡ r + i) ⊎ (((r + i) % n + n ≡ r + i) × ((r + i) % n < r))
one_turn r i n hr hi = elim (dec_lt (r + i) n) [
  | yes p ↦ inl (mod-eq_of_lt p)
  | no p ↦
      let e : (r + i) % n ≡ r + i - n =
        mod-eq-sub-mod {n = r + i} {m = n} (omega arith)
        ∙ mod-eq_of_lt {n = r + i - n} {m = n} (omega arith) in
      inr (omega (arith, e), omega (arith, e))
]

-- Fewer than `n` steps round the ring do not meet.
pub slot_ne : (h i j n : ℕ) → i < n → j < n → i ≢ j → (h + i) % n ≢ (h + j) % n
slot_ne h i j n hi hj ne =
    rw (← mod-add-mod h n i, ← mod-add-mod h n j)
      (grind (
        arith,
        one_turn (h % n) i n (mod-lt h (omega arith)) hi,
        one_turn (h % n) j n (mod-lt h (omega arith)) hj,
      ))

-- A whole turn comes back to the start.
pub lap : (h n : ℕ) → (h + n) % n ≡ (h + 0) % n
lap h n = ap (λ t. t % n) (omega arith) ∙ add-mul-mod_self_right (h + 0) 1 n
