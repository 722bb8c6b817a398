-- ===== src/Buffer/Fresh.antt =====
-- atomic/buffer.rs: the ring that `with_capacity` makes.
use native.Mathlib.Nat.{mod-eq_of_lt}
use crossync.Prelude.{
  ◌%◌, ℕ, zero, suc, ◌+◌, ◌-◌, ◌*◌, ◌^◌, ◌≤◌, ◌<◌, ◌≡◌, refl, sym, ap, ◌∙◌, true, none, some, [],
  arith, length, get_elem?,
}
use mathlib.Core.Path.{subst}
use crossync.Usize.{is_power_of_two, trailing_zeros, power_of_two_lem, pow_add}
use crossync.Buffer.Machine.{Buffer, fresh_slots, with_capacity}
use crossync.Buffer.Queue.{Holds}

length-fresh_slots : (T : Type 0) (n j : ℕ) → length (fresh_slots {T = T} n j) ≡ n
unfolding fresh_slots
length-fresh_slots T zero j = refl
length-fresh_slots T (suc n) j = ap suc (length-fresh_slots T n (j + 1))

module _ {T : Type 0} where
  get_elem?-fresh_slots :
      (n j i : ℕ)
      → i < n
      → get_elem? (fresh_slots {T = T} n j) i ≡ some (record { sequence = j + i; value = none })
  unfolding fresh_slots
  get_elem?-fresh_slots zero j i h = absurd (omega (arith, h))
  get_elem?-fresh_slots (suc n) j zero h = ground arith
  get_elem?-fresh_slots (suc n) j (suc i) h = ground (arith, get_elem?-fresh_slots n (j + 1) i)

  new_parts :
      (size : ℕ) (b : Buffer T)
      → with_capacity size ≡ some b
      → (is_power_of_two size ≡ true)
        × (size < 2 ^ 63)
        × (b ≡ record { head = 0; tail = 0; slots = fresh_slots size 0; single = none; cap = size })
  unfolding with_capacity
  new_parts size b e = (ground (arith, e), ground (arith, e), ground (arith, e))

  -- A ring of at least two slots that `with_capacity` makes is at rest, with an empty queue.
  pub new_buffer-Holds :
      (size : ℕ) (b : Buffer T) → 2 ≤ size → with_capacity size ≡ some b → Holds b []
  new_buffer-Holds size b two e =
      let (power, small, made) = new_parts size b e in
      let (exact, bits) = power_of_two_lem size power (omega (arith, small)) in
      let k = trailing_zeros size in
      let all_bits : 64 - k + k ≡ 64 = omega (arith, bits) in
      let whole : 2 ^ (64 - k) * size ≡ 2 ^ 64 =
        ap (λ c. 2 ^ (64 - k) * c) exact ∙ sym (pow_add (64 - k) k) ∙ ap (λ n. 2 ^ n) all_bits in
      subst (λ b. Holds b []) (sym made)
        (record {
          turns = 2 ^ (64 - k);
          divides = whole;
          two = two;
          small = small;
          sized = length-fresh_slots T size 0;
          head_lt = omega arith;
          tail_at = refl;
          fits = omega arith;
          slots_at = λ i h.
              ap (get_elem? (fresh_slots size 0))
                (ap (λ x. x % size) (omega arith) ∙ mod-eq_of_lt h)
              ∙ get_elem?-fresh_slots size 0 i h
              ∙ ap some
                  (ap (λ n. record { sequence = n; value = none }) (ground (arith, h, small)));
        })
