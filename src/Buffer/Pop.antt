-- ===== src/Buffer/Pop.antt =====
-- atomic/buffer.rs: `pop` by a thread that is alone.
use mathlib.Core.Path.{subst}
use native.Mathlib.Decide.{ℕ_discrete}
use crossync.Prelude.{
  ℕ, suc, ◌+◌, ◌%◌, ◌≤◌, ◌<◌, ◌≡◌, refl, sym, ap, ◌∙◌, ◌↔◌, true, false, none, some, List, [], ◌∷◌,
  arith, length, get_elem?, set, length-set, get_elem?-set_self, get_elem?-set_ne,
  get_elem?-eq-none, set-set, lt_of_get_elem?,
}
use crossync.Threads.{solo, solo-step}
use crossync.Buffer.Machine.{
  Slot, Buffer, pop_start, pop_check, pop_cas, pop_take, pop_publish, popped, empty, wrapping_add,
  move, len_approx, is_empty_fast,
}
use crossync.Buffer.Ring.{wrap_slot, slot_ne, lap}
use crossync.Buffer.Queue.{Holds, slot_at}

module _ {T : Type 0} where
  -- The ring after a pop at its head.
  after_pop : Buffer T → Buffer T
  after_pop b = record b {
    head = wrapping_add b.head 1;
    slots =
        set b.slots (b.head % b.cap)
          (record { sequence = wrapping_add b.head b.cap; value = none });
  }

  module _ (b : Buffer T) (v : T) (i : ℕ) (at : b.head % b.cap ≡ i) where
    claimed : Buffer T
    claimed = record b { head = wrapping_add b.head 1 }

    -- after the value is taken
    taken : Buffer T
    taken = record b {
      head = wrapping_add b.head 1;
      slots = set b.slots i (record { sequence = wrapping_add b.head 1; value = none });
    }

    pop_steps :
        2 ≤ b.cap
        → get_elem? b.slots i ≡ some (record { sequence = wrapping_add b.head 1; value = some v })
        → (move false b pop_start ≡ (b, pop_check b.head))
          × (move false b (pop_check b.head) ≡ (b, pop_cas b.head))
          × (move false b (pop_cas b.head) ≡ (claimed, pop_take b.head))
          × (move false claimed (pop_take b.head) ≡ (taken, pop_publish b.head (some v)))
          × (move false taken (pop_publish b.head (some v)) ≡ (after_pop b, popped (some v)))
    unfolding move after_pop claimed taken
    pop_steps two e = (
      ground (arith, two),
      ground (arith, e, at),
      ground arith,
      ground (arith, e, at),
      ground (
        arith,
        at,
        get_elem?-set_self b.slots i (record { sequence = wrapping_add b.head 1; value = none })
            (lt_of_get_elem? b.slots i e),
        set-set b.slots i (record { sequence = wrapping_add b.head 1; value = none })
            (record { sequence = wrapping_add b.head b.cap; value = none }),
      ),
    )

  head_slot :
      (b : Buffer T) (q : List T)
      → Holds b q
      → get_elem? b.slots (b.head % b.cap) ≡ some (slot_at b.head q 0)
  head_slot b q h =
      ap (get_elem? b.slots) (ap (λ t. t % b.cap) (omega arith))
      ∙ h.slots_at 0 (omega (arith, h.two))

  after_pop-Holds : (b : Buffer T) (q : List T) (v : T) → Holds b (v ∷ q) → Holds (after_pop b) q
  unfolding after_pop
  after_pop-Holds b q v h = record {
    turns = h.turns;
    divides = h.divides;
    two = h.two;
    small = h.small;
    sized = length-set b.slots _ _ ∙ h.sized;
    head_lt = omega arith;
    tail_at = omega (arith, h.tail_at);
    fits = omega (arith, h.fits);
    slots_at = slots;
  }
    where
      free : Slot T
      free = record { sequence = wrapping_add b.head b.cap; value = none }

      start : b.head % b.cap ≡ (b.head + 0) % b.cap
      start = ap (λ t. t % b.cap) (omega arith)

      freed_slot : (i : ℕ) → suc i ≡ b.cap → free ≡ slot_at (wrapping_add b.head 1) q i
      freed_slot i e = ground (arith, e, h.fits, get_elem?-eq-none q i)

      shifted_slot : (i : ℕ) → slot_at b.head (v ∷ q) (suc i) ≡ slot_at (wrapping_add b.head 1) q i
      shifted_slot i = ground arith

      at : (i : ℕ) → (wrapping_add b.head 1 + i) % b.cap ≡ (b.head + suc i) % b.cap
      at i = wrap_slot (b.head + 1) i b.cap h.turns h.divides ∙ ap (λ t. t % b.cap) (omega arith)

      slots :
          (i : ℕ)
          → i < b.cap
          → get_elem? (set b.slots (b.head % b.cap) free) ((wrapping_add b.head 1 + i) % b.cap)
            ≡ some (slot_at (wrapping_add b.head 1) q i)
      slots i hi = elim (ℕ_discrete (suc i) b.cap) [
        | yes e ↦
            ap (get_elem? (set b.slots (b.head % b.cap) free))
              (at i ∙ ap (λ n. (b.head + n) % b.cap) e ∙ lap b.head b.cap ∙ sym start)
            ∙ get_elem?-set_self b.slots (b.head % b.cap) free (omega (arith, h.sized))
            ∙ ap some (freed_slot i e)
        | no ne ↦
            ap (get_elem? (set b.slots (b.head % b.cap) free)) (at i)
            ∙ get_elem?-set_ne b.slots (b.head % b.cap) _ free (
                rw start (slot_ne b.head 0 (suc i) b.cap (omega arith) (omega arith) (omega arith)))
            ∙ h.slots_at (suc i) (omega arith)
            ∙ ap some (shifted_slot i)
      ]

  -- On a ring of at least two slots at rest that is not empty, `pop` by a thread that is alone takes
  -- the oldest value within five accesses, if no compare-exchange fails without cause; the ring is
  -- at rest then, with the rest of the queue.
  pub pop_solo :
      (b : Buffer T) (q : List T) (v : T)
      → Holds b (v ∷ q)
      → let (b', p) = solo move 5 false (b, pop_start) in (p ≡ popped (some v)) × Holds b' q
  pop_solo b q v h =
      let (s1, s2, s3, s4, s5) = pop_steps b v (b.head % b.cap) refl h.two (
        head_slot b (v ∷ q) h
        ∙ ap (λ s. some (record { sequence = s; value = some v })) (grind arith)) in
      let done : solo move 5 false (b, pop_start) ≡ (after_pop b, popped (some v)) =
        solo-step move 4 false b pop_start s1
        ∙ solo-step move 3 false b (pop_check b.head) s2
        ∙ solo-step move 2 false b (pop_cas b.head) s3
        ∙ solo-step move 1 false (claimed b v (b.head % b.cap) refl) (pop_take b.head) s4
        ∙ solo-step move 0 false (taken b v (b.head % b.cap) refl) (pop_publish b.head (some v))
            s5 in
      subst (λ s. (s.1 ≡ popped (some v)) × Holds s.0 q) (sym done) (refl, after_pop-Holds b q v h)

  -- An empty ring of at least two slots at rest gives `pop` by a thread that is alone nothing within
  -- three accesses, and is as it was.
  pub pop_solo_empty : (b : Buffer T) → Holds b [] → solo move 3 false (b, pop_start) ≡ (b, empty)
  unfolding move
  pop_solo_empty b h = ground (arith, h.two, h.head_lt, h.tail_at, head_slot b [] h)

  -- On a ring of at least two slots at rest `len_approx` is the number of values in it, and
  -- `is_empty_fast` holds exactly if there are none.
  pub len_approx_exact :
      (b : Buffer T) (q : List T)
      → Holds b q
      → (len_approx b ≡ length q) × ((is_empty_fast b ≡ true) ↔ (q ≡ []))
  unfolding len_approx is_empty_fast
  len_approx_exact b [] h = ground (arith, h.two, h.head_lt, h.tail_at)
  len_approx_exact b (v ∷ q) h = ground (arith, h.two, h.small, h.fits, h.head_lt, h.tail_at)
