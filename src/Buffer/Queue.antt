-- ===== src/Buffer/Queue.antt =====
-- atomic/buffer.rs: what a thread that is alone does to the queue that the ring stands for.
use crossync.Prelude.{
  ℕ, ◌+◌, ◌*◌, ◌%◌, ◌^◌, ◌≤◌, ◌<◌, ◌≡◌, ◌≢◌, refl, sym, ap, ◌∙◌, false, none, some, List, [], ◌∷◌,
  ◌++◌, arith, ltb, if◌then◌else◌, length, get_elem?, set, length-append, length-set,
  get_elem?-set_self, get_elem?-set_ne, get_elem?-snoc, get_elem?-eq-none, set-set, lt_of_get_elem?,
}
use native.Mathlib.Decide.{ℕ_discrete}
use mathlib.Core.Path.{subst}
use crossync.Threads.{solo, solo-step}
use crossync.Buffer.Machine.{
  Slot, Buffer, push_start, push_check, push_cas, push_write, push_publish, pushed, rejected,
  wrapping_add, move,
}
use crossync.Buffer.Ring.{wrap_slot, slot_ne, lap}

module _ {T : Type 0} where
  abbrev pub slot_at : ℕ → List T → ℕ → Slot T
  slot_at head q i = record {
    sequence = (head + i + (if ltb i (length q) then 1 else 0)) % 2 ^ 64;
    value = get_elem? q i;
  }

  -- A ring of at least two slots at rest, with the queue `q` in it, oldest first.
  pub record Holds (b : Buffer T) (q : List T) : Type 0 where
    pub turns : ℕ
    pub divides : turns * b.cap ≡ 2 ^ 64
    pub two : 2 ≤ b.cap
    pub small : b.cap < 2 ^ 63
    pub sized : length b.slots ≡ b.cap
    pub head_lt : b.head < 2 ^ 64
    pub tail_at : b.tail ≡ (b.head + length q) % 2 ^ 64
    pub fits : length q ≤ b.cap
    pub slots_at :
        (i : ℕ) → i < b.cap → get_elem? b.slots ((b.head + i) % b.cap) ≡ some (slot_at b.head q i)

  -- The slot of the tail.
  tail_index :
      (b : Buffer T) (q : List T) → Holds b q → b.tail % b.cap ≡ (b.head + length q) % b.cap
  tail_index b q h =
      ap (λ t. t % b.cap) h.tail_at
      ∙ ap (λ t. t % b.cap) (omega arith)
      ∙ wrap_slot (b.head + length q) 0 b.cap h.turns h.divides
      ∙ ap (λ t. t % b.cap) (omega arith)

  -- What `push` finds at the tail.
  tail_slot :
      (b : Buffer T) (q : List T)
      → Holds b q
      → length q < b.cap
      → get_elem? b.slots (b.tail % b.cap) ≡ some (record { sequence = b.tail; value = none })
  tail_slot b q h lt = rw (tail_index b q h) (
      h.slots_at (length q) lt
      ∙ ap some (ground (arith, h.tail_at, get_elem?-eq-none q (length q))))

  -- The ring after a push at its tail.
  after_push : Buffer T → T → Buffer T
  after_push b v = record b {
    tail = wrapping_add b.tail 1;
    slots =
        set b.slots (b.tail % b.cap) (record { sequence = wrapping_add b.tail 1; value = some v });
  }

  module _ (b : Buffer T) (v : T) (i : ℕ) (at : b.tail % b.cap ≡ i) where
    -- the ring after the reservation, and after the write
    reserved : Buffer T
    reserved = record b { tail = wrapping_add b.tail 1 }

    written : Buffer T
    written = record b {
      tail = wrapping_add b.tail 1;
      slots = set b.slots i (record { sequence = b.tail; value = some v });
    }

    push_steps :
        2 ≤ b.cap
        → b.tail < 2 ^ 64
        → get_elem? b.slots i ≡ some (record { sequence = b.tail; value = none })
        → (move false b (push_start (some v)) ≡ (b, push_check v b.tail))
          × (move false b (push_check v b.tail) ≡ (b, push_cas v b.tail))
          × (move false b (push_cas v b.tail) ≡ (reserved, push_write v b.tail))
          × (move false reserved (push_write v b.tail) ≡ (written, push_publish b.tail))
          × (move false written (push_publish b.tail) ≡ (after_push b v, pushed))
    unfolding move after_push reserved written
    push_steps two lt e = (
      ground (arith, two),
      ground (arith, e, at),
      ground arith,
      ground (arith, e, at),
      ground (
        arith,
        at,
        get_elem?-set_self b.slots i (record { sequence = b.tail; value = some v })
            (lt_of_get_elem? b.slots i e),
        set-set b.slots i (record { sequence = b.tail; value = some v })
            (record { sequence = wrapping_add b.tail 1; value = some v }),
      ),
    )

  -- The slots of the queue with one more value at its end.
  slot_at-snoc :
      (head i : ℕ) (q : List T) (v : T)
      → i ≢ length q
      → slot_at head q i ≡ slot_at head (q ++ v ∷ []) i
  slot_at-snoc head i q v ne = ground (arith, length-append q (v ∷ []), get_elem?-snoc q v i)

  slot_at-last :
      (head : ℕ) (q : List T) (v : T)
      → slot_at head (q ++ v ∷ []) (length q)
        ≡ record { sequence = (head + length q + 1) % 2 ^ 64; value = some v }
  slot_at-last head q v = ground (arith, length-append q (v ∷ []), get_elem?-snoc q v (length q))

  after_push-Holds :
      (b : Buffer T) (q : List T) (v : T)
      → Holds b q
      → length q < b.cap
      → Holds (after_push b v) (q ++ v ∷ [])
  unfolding after_push
  after_push-Holds b q v h lt = record {
    turns = h.turns;
    divides = h.divides;
    two = h.two;
    small = h.small;
    sized = length-set b.slots _ _ ∙ h.sized;
    head_lt = h.head_lt;
    tail_at = omega (arith, h.tail_at, length-append q (v ∷ []));
    fits = omega (arith, length-append q (v ∷ []));
    slots_at = slots;
  }
    where
      new : Slot T
      new = record { sequence = wrapping_add b.tail 1; value = some v }

      slots :
          (i : ℕ)
          → i < b.cap
          → get_elem? (set b.slots (b.tail % b.cap) new) ((b.head + i) % b.cap)
            ≡ some (slot_at b.head (q ++ v ∷ []) i)
      slots i hi = elim (ℕ_discrete i (length q)) [
        | yes e ↦
            rw (e, ← tail_index b q h, slot_at-last b.head q v)
              (get_elem?-set_self b.slots (b.tail % b.cap) new (omega (arith, h.sized))
                ∙ ap (λ s. some (record { sequence = s; value = some v }))
                    (omega (arith, h.tail_at)))
        | no ne ↦
            rw (← slot_at-snoc b.head i q v ne, tail_index b q h)
              (get_elem?-set_ne b.slots _ _ new
                  (slot_ne b.head (length q) i b.cap lt hi (λ e. ne (sym e)))
                ∙ h.slots_at i hi)
      ]

  -- On a ring of at least two slots at rest with room left, `push` of a value by a thread that is
  -- alone succeeds within five accesses, if no compare-exchange fails without cause; the ring is at
  -- rest then, and its queue has the value at its end.
  pub push_solo :
      (b : Buffer T) (q : List T) (v : T)
      → Holds b q
      → length q < b.cap
      → let (b', p) = solo move 5 false (b, push_start (some v)) in
        (p ≡ pushed) × Holds b' (q ++ v ∷ [])
  push_solo b q v h lt =
      let (s1, s2, s3, s4, s5) =
        push_steps b v (b.tail % b.cap) refl h.two (omega (arith, h.tail_at))
          (tail_slot b q h lt) in
      let done : solo move 5 false (b, push_start (some v)) ≡ (after_push b v, pushed) =
        solo-step move 4 false b (push_start (some v)) s1
        ∙ solo-step move 3 false b (push_check v b.tail) s2
        ∙ solo-step move 2 false b (push_cas v b.tail) s3
        ∙ solo-step move 1 false (reserved b v (b.tail % b.cap) refl) (push_write v b.tail) s4
        ∙ solo-step move 0 false (written b v (b.tail % b.cap) refl) (push_publish b.tail) s5 in
      subst (λ s. (s.1 ≡ pushed) × Holds s.0 (q ++ v ∷ [])) (sym done)
        (refl, after_push-Holds b q v h lt)

  -- A full ring of at least two slots at rest rejects the value of a `push` by a thread that is alone
  -- within two accesses, gives it back and is as it was.
  pub push_solo_full :
      (b : Buffer T) (q : List T) (v : T)
      → Holds b q
      → length q ≡ b.cap
      → solo move 2 false (b, push_start (some v)) ≡ (b, rejected (some v))
  unfolding move
  push_solo_full b q v h full = ground (arith, h.two, h.small, h.tail_at, head_slot)
    where
      head_slot : get_elem? b.slots (b.tail % b.cap) ≡ some (slot_at b.head q 0)
      head_slot =
          ap (get_elem? b.slots)
            (tail_index b q h ∙ ap (λ n. (b.head + n) % b.cap) full ∙ lap b.head b.cap)
          ∙ h.slots_at 0 (omega (arith, h.two))
