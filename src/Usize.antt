-- ===== src/Usize.antt =====
-- The methods of `usize` that the containers use on sizes: `is_power_of_two`, `trailing_zeros`.
use native.Mathlib.Nat.{pow-suc, add-zero, add-suc, mul_assoc, mul_comm, div-lt_iff_lt-mul}
use crossync.Prelude.{
  ℕ, zero, suc, ◌+◌, ◌-◌, ◌*◌, ◌/◌, ◌%◌, ◌^◌, ◌≤◌, ◌<◌, ◌≡◌, ◌≢◌, sym, ap, Bool, true, arith, ◌==◌,
  ==_iff, if◌then◌else◌,
}

-- Zeros below the lowest one, at most the bits given.
pub low_zeros : ℕ → ℕ → ℕ
low_zeros zero n = 0
low_zeros (suc bits) n = let rest = suc (low_zeros bits (n / 2)) in if n % 2 == 1 then 0 else rest

unfoldable pub trailing_zeros : ℕ → ℕ
unfolding low_zeros
trailing_zeros n = low_zeros 64 n

unfoldable pub is_power_of_two : ℕ → Bool
is_power_of_two n = 2 ^ trailing_zeros n == n

low_zeros-le : (bits n : ℕ) → low_zeros bits n ≤ bits
unfolding low_zeros
low_zeros-le zero n = omega arith
low_zeros-le (suc bits) n = ground (arith, low_zeros-le bits (n / 2))

pub pow_add : (a b : ℕ) → 2 ^ (a + b) ≡ 2 ^ a * 2 ^ b
pow_add a zero = rw add-zero (omega arith)
pow_add a (suc b) = rw (add-suc, pow-suc, pow-suc, pow_add a b) (mul_assoc (2 ^ a) (2 ^ b) 2)

pub pow_pos : (k : ℕ) → 0 < 2 ^ k
pow_pos zero = omega arith
pow_pos (suc k) = rw pow-suc (omega (arith, pow_pos k))

trailing_zeros-le : (n : ℕ) → trailing_zeros n ≤ 64
unfolding trailing_zeros
trailing_zeros-le n = low_zeros-le 64 n

pub div_lt : (a b x : ℕ) → 0 < a → x < a * b → x / a < b
div_lt a b x p h = (div-lt_iff_lt-mul p).1 (rw mul_comm h)

-- A power of two below 2 ^ 64 is 2 to the number of its trailing zeros, which is below 64.
pub power_of_two_lem :
    (n : ℕ)
    → is_power_of_two n ≡ true
    → n < 2 ^ 64
    → (n ≡ 2 ^ trailing_zeros n) × (trailing_zeros n < 64)
unfolding is_power_of_two
power_of_two_lem n h lt =
    let e : 2 ^ trailing_zeros n ≡ n = (==_iff _ _).0 h in
    let small : trailing_zeros n ≢ 64 = λ full. absurd (omega (arith, ap (λ t. 2 ^ t) full, e)) in
    (sym e, omega (arith, small, trailing_zeros-le n))

-- The high bits of a word, as many as the size has zeros, index an array of that size.
pub high_bits_lt : (k x : ℕ) → k ≤ 64 → x < 2 ^ 64 → x / 2 ^ (64 - k) < 2 ^ k
high_bits_lt k x h lt =
    div_lt (2 ^ (64 - k)) (2 ^ k) x (pow_pos (64 - k))
      (rw (← pow_add (64 - k) k) (let e : 64 - k + k ≡ 64 = omega arith in rw e lt))
