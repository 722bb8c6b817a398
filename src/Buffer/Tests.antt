-- ===== src/Buffer/Tests.antt =====
-- atomic/buffer.rs: a ring of two slots that is empty, half full and full, and the theorems there.
use crossync.Prelude.{
  ℕ, zero, suc, ◌+◌, ◌-◌, ◌%◌, ◌^◌, ◌<◌, ◌≡◌, refl, arith, false, none, some, List, [], ◌∷◌,
  get_elem?,
}
use crossync.Threads.{solo}
use crossync.Buffer.Machine.{Slot, Buffer, push_start, pushed, pop_start, popped, move}
use crossync.Buffer.Queue.{Holds, slot_at, push_solo}
use crossync.Buffer.Pop.{pop_solo}

-- A ring of two slots whose positions are about to wrap.
abbrev ring : ℕ → List (Slot ℕ) → Buffer ℕ
ring tail slots = record { head = 2 ^ 64 - 2; tail = tail; slots = slots; single = none; cap = 2 }

abbrev blank : Buffer ℕ
blank = ring (2 ^ 64 - 2) (
    record { sequence = 2 ^ 64 - 2; value = none }
    ∷ record { sequence = 2 ^ 64 - 1; value = none }
    ∷ [])

abbrev new_ring : Buffer ℕ
new_ring = record {
  head = 0;
  tail = 0;
  slots = record { sequence = 0; value = none } ∷ record { sequence = 1; value = none } ∷ [];
  single = none;
  cap = 2;
}

abbrev full : Buffer ℕ
full = ring 0 (
    record { sequence = 2 ^ 64 - 1; value = some 5 } ∷ record { sequence = 0; value = some 6 } ∷ [])

below_two : (P : ℕ → Type 0) → P 0 → P 1 → (i : ℕ) → i < 2 → P i
below_two P p q zero h = p
below_two P p q (suc zero) h = q
below_two P p q (suc (suc i)) h = absurd (omega (arith, h))

blank-Holds : Holds blank []
blank-Holds = record {
  turns = 2 ^ 63;
  divides = refl;
  two = omega arith;
  small = omega arith;
  sized = refl;
  head_lt = omega arith;
  tail_at = refl;
  fits = omega arith;
  slots_at =
      below_two (λ i. get_elem? blank.slots ((blank.head + i) % 2) ≡ some (slot_at blank.head [] i))
        refl refl;
}

full-Holds : Holds full (5 ∷ 6 ∷ [])
full-Holds = record {
  turns = 2 ^ 63;
  divides = refl;
  two = omega arith;
  small = omega arith;
  sized = refl;
  head_lt = omega arith;
  tail_at = refl;
  fits = omega arith;
  slots_at =
      below_two
        (λ i. get_elem? full.slots ((full.head + i) % 2) ≡ some (slot_at full.head (5 ∷ 6 ∷ []) i))
        refl refl;
}

push_solo_example :
    let (b', p) = solo move 5 false (blank, push_start (some 5)) in (p ≡ pushed) × Holds b' (5 ∷ [])
push_solo_example = push_solo blank [] 5 blank-Holds (omega arith)

pop_solo_example :
    let (b', p) = solo move 5 false (full, pop_start) in (p ≡ popped (some 5)) × Holds b' (6 ∷ [])
pop_solo_example = pop_solo full (6 ∷ []) 5 full-Holds
