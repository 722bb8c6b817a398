-- ===== src/Vec/Swap.antt =====
-- atomic/vec.rs: `swap` exchanges the values at two indices.
use crossync.Prelude.{
  ℕ, ◌+◌, ◌/◌, ◌%◌, ◌≤◌, ◌<◌, ◌≡◌, ◌≢◌, ◌⊎◌, inl, inr, sym, ap, ◌∙◌, true, false, some, List, arith,
  length, length-set, set, get_elem?, get_elem?-set, lt_of_get_elem?,
}
use native.Mathlib.Decide.{ℕ_discrete}
use mathlib.Core.Option.{some-injective}
use mathlib.Core.Path.{subst}
use crossync.Vec.Memory.{VecSlot, InnerVec, set_slot}
use crossync.Vec.Rep.{Filled, Rep, Holds}
use crossync.Vec.Frame.{Same-Chain, Same-Spare, set_slot-Same, set_slot-other, set_slot_self}
use crossync.Vec.Calls.{len}
use crossync.Vec.Queue.{len_lem}
use crossync.Vec.Access.{locate, get_slot_ptr, swap_values, swap_inner}
use crossync.Vec.At.{located, found, present}

module _ {T : Type 0} where
  abbrev full : T → VecSlot T
  full x = record { state = 1; value = some x }

  -- A value that is written in the place of the one at an index.
  module _ (v : InnerVec T) (xs : List T) (at : ℕ → ℕ) (taken : ℕ) (dead : List ℕ) (i : ℕ) (y : T)
      (r : Rep v xs at taken dead) (lt : i < length xs) where
    abbrev written : InnerVec T
    written = set_slot v (at ((taken + i) / 31)) ((taken + i) % 31) (full y)

    elsewhere :
        (j : ℕ)
        → j < length xs
        → i ≢ j
        → (at ((taken + i) / 31) ≢ at ((taken + j) / 31)) ⊎ ((taken + i) % 31 ≢ (taken + j) % 31)
    elsewhere j lj ne = elim (ℕ_discrete ((taken + i) / 31) ((taken + j) / 31)) [
      | yes e ↦ inr (λ m. omega (arith, e, m, ne))
      | no apart ↦ inl (
          r.chain.distinct ((taken + i) / 31) ((taken + j) / 31) (omega arith) (omega (arith, lt))
            (omega arith) (omega (arith, lj)) apart)
    ]

    write-Rep : Rep written (set xs i y) at taken dead
    write-Rep = record {
      bound = rw (length-set xs i y) r.bound;
      head_at = r.head_at;
      tail_at = rw (length-set xs i y) r.tail_at;
      flag = rw (length-set xs i y) r.flag;
      few = r.few;
      chain = rw (length-set xs i y) (
          Same-Chain (set_slot-Same v (at ((taken + i) / 31)) ((taken + i) % 31) (full y)) r.chain);
      spare = rw (length-set xs i y) (
          Same-Spare (set_slot-Same v (at ((taken + i) / 31)) ((taken + i) % 31) (full y)) r.spare);
      filled = λ j z e. elim (ℕ_discrete i j) [
        | yes here ↦
            subst (λ j. Filled written at (taken + j) z) here
              (set_slot_self v (at ((taken + i) / 31)) ((taken + i) % 31) (full y)
                ∙ ap full (some-injective y z (ground (arith, get_elem?-set xs i j y lt, here, e))))
        | no ne ↦
            let old : get_elem? xs j ≡ some z = ground (arith, get_elem?-set xs i j y lt, ne, e) in
            set_slot-other v (at ((taken + i) / 31)) ((taken + i) % 31) (full y)
              (at ((taken + j) / 31)) ((taken + j) % 31) (elsewhere j (lt_of_get_elem? xs j old) ne)
            ∙ r.filled j z old
      ];
    }

  swap_values_lem :
      (v : InnerVec T) (b o c p : ℕ) (x y : T)
      → (v.heap b).slots o ≡ full x
      → (v.heap c).slots p ≡ full y
      → swap_values v (b, o) (c, p) ≡ set_slot (set_slot v b o (full y)) c p (full x)
  swap_values_lem v b o c p x y e f =
      ap
        (λ s.
          set_slot (set_slot v b o (record s { value = ((v.heap c).slots p).value })) c p
            (record ((v.heap c).slots p) { value = s.value }))
        e
      ∙ ap
          (λ t.
            set_slot (set_slot v b o (record { state = 1; value = t.value })) c p
              (record t { value = some x }))
          f

  slot_ptr_lem :
      (v : InnerVec T) (xs : List T) (n : ℕ) (h : Holds v xs n) (i : ℕ)
      → i < length xs
      → get_slot_ptr v i (v.head_index / 2) ≡ (h.at ((h.taken + i) / 31), (h.taken + i) % 31)
  slot_ptr_lem v xs n h i lt =
      ap (λ b. (b, (locate (v.head_index / 2) i).1)) (found v xs n h i lt)
      ∙ ap (λ o. (h.at ((h.taken + i) / 31), o)) (located v xs n h i).1

  in_range :
      (v : InnerVec T) (i j : ℕ)
      → i < len v
      → j < len v
      → 0 < (get_slot_ptr v i (v.head_index / 2)).0
      → 0 < (get_slot_ptr v j (v.head_index / 2)).0
      → swap_inner v i j ≡ (
        true,
        swap_values v (get_slot_ptr v i (v.head_index / 2)) (get_slot_ptr v j (v.head_index / 2)),
      )
  unfolding swap_inner
  in_range v i j li lj pi pj = ground (arith, li, lj, pi, pj)

  -- `swap` of two indices in range exchanges their values, and returns true.
  pub swap_inner-Holds :
      (v : InnerVec T) (xs : List T) (n i j : ℕ) (x y : T)
      → Holds v xs n
      → get_elem? xs i ≡ some x
      → get_elem? xs j ≡ some y
      → (w : InnerVec T) × (swap_inner v i j ≡ (true, w)) × Holds w (set (set xs i y) j x) n
  swap_inner-Holds v xs n i j x y h ei ej =
      let li = lt_of_get_elem? xs i ei in
      let lj = lt_of_get_elem? xs j ej in
      let first = write-Rep v xs h.at h.taken h.dead i y h.rep li in
      let both =
        write-Rep _ (set xs i y) h.at h.taken h.dead j x first (rw (length-set xs i y) lj) in
      let here = slot_ptr_lem v xs n h i li in
      let there = slot_ptr_lem v xs n h j lj in
      (
        _,
        in_range v i j (omega (arith, len_lem v xs n h, li)) (omega (arith, len_lem v xs n h, lj))
              (subst (λ p. 0 < p.0) (sym here) (present v xs n h i li))
              (subst (λ p. 0 < p.0) (sym there) (present v xs n h j lj))
            ∙ ap (λ p. (true, swap_values v p (get_slot_ptr v j (v.head_index / 2)))) here
            ∙ ap (λ p. (true, swap_values v (h.at ((h.taken + i) / 31), (h.taken + i) % 31) p))
                there
            ∙ ap (λ w. (true, w))
                (swap_values_lem v (h.at ((h.taken + i) / 31)) ((h.taken + i) % 31)
                  (h.at ((h.taken + j) / 31)) ((h.taken + j) % 31) x y (h.rep.filled i x ei)
                  (h.rep.filled j y ej)),
        record {
          at = h.at;
          taken = h.taken;
          dead = h.dead;
          rep = both;
          total = omega (arith, h.total, length-set xs i y, length-set (set xs i y) j x);
        },
      )

  -- `swap` with an index out of range returns false and changes nothing.
  pub swap_inner-false :
      (v : InnerVec T) (xs : List T) (n i j : ℕ)
      → Holds v xs n
      → (length xs ≤ i) ⊎ (length xs ≤ j)
      → swap_inner v i j ≡ (false, v)
  unfolding swap_inner
  swap_inner-false v xs n i j h out = ground (arith, out, len_lem v xs n h)
