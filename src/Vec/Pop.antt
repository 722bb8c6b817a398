-- ===== src/Vec/Pop.antt =====
-- atomic/vec.rs: what `pop_raw` does to the list of values.
mod Turns
mod Passage
use crossync.Prelude.{
  ℕ, zero, suc, ◌+◌, ◌-◌, ◌*◌, ◌/◌, ◌%◌, ◌^◌, ◌≤◌, ◌<◌, ◌≡◌, ◌≢◌, ◌⊎◌, inl, inr, refl, sym, ap, ◌∙◌,
  Bool, true, false, not, ◌&&◌, ◌||◌, Option, none, some, List, [], ◌∷◌, ◌++◌, arith, leb, ◌==◌,
  if◌then◌else◌, length, get_elem?, lt_of_get_elem?, All,
}
use native.Mathlib.Decide.{ℕ_discrete}
use mathlib.Core.Path.{subst}
use crossync.Vec.Memory.{
  VecSlot, Block, InnerVec, zeroed, put, is_written, set_next, set_slot, set_counters, retire,
}
use crossync.Vec.Ends.{due, advance, leave, take_value, pop_won, pop_raw}
use crossync.Vec.Rep.{place_of, Distinct, Stack, IsClean, Chain, Outside, Spare, Filled, Rep, Holds}
use crossync.Vec.Grow.{All-left, All-right}
use crossync.Vec.Frame.{All-of, All-map, same-Stack}
use crossync.Vec.Pop.Turns.{
  read_slot, read_slot-other, read_slot-next, read_slot-counters, read_slot-slots, IsClean-kept,
  pop_won-inside, pop_won-end, mark, advance_lem, pop_raw-marked, pop_raw-unmarked,
}
use crossync.Vec.Pop.Passage.{front, stayed, stays, moved, passed, passes}

module _ {T : Type 0} where
  module _ (v : InnerVec T) (x : T) (xs : List T) (at : ℕ → ℕ) (taken : ℕ) (dead : List ℕ)
      (r : Rep v (x ∷ xs) at taken dead) where
    mark_lem :
        taken / 31 < (taken + suc (length xs)) / 31
        → (mark v (at (taken / 31 + 1)) ≡ 0)
          ⊎ (mark v (at (taken / 31 + 1)) ≡ 1) × (taken / 31 + 1 < (taken + suc (length xs)) / 31)
    mark_lem lt = elim (ℕ_discrete (taken / 31 + 1) ((taken + suc (length xs)) / 31)) [
      | yes e ↦ inl (ground (arith, subst (λ k. (v.heap (at k)).next ≡ 0) (sym e) r.chain.no_more))
      | no ne ↦ inr (
        ground (
          arith,
          r.chain.links (taken / 31 + 1) (omega arith) (omega (arith, ne)),
          (r.chain.allocated (taken / 31 + 1 + 1) (omega arith) (omega (arith, ne))).0,
        ),
        omega (arith, ne),
      )
    ]

    inside : v.head_index / 2 % 32 ≡ taken % 31
    inside = omega (arith, r.head_at)

    present : 0 < v.head_block
    present = rw r.chain.head_ptr (r.chain.allocated (taken / 31) (omega arith) r.chain.ordered).0

    small : v.head_index + 3 < 2 ^ 64
    small = omega (arith, r.head_at, r.bound)

    -- `pop_raw` wins with an index one place on, whose bit is true of the blocks.
    pop_raw_lem :
        (head : ℕ) × (head / 2 ≡ place_of taken + 1)
        × ((head % 2 ≡ 0) ⊎ (taken / 31 < (taken + suc (length xs)) / 31))
        × (pop_raw v ≡ pop_won v (at (taken / 31)) (taken % 31) head)
    pop_raw_lem = elim r.flag [
      | inl even ↦
          let m : ℕ = if v.head_index / 2 / 32 == v.tail_index / 2 / 32 then 0 else 1 in
          let le : m ≤ 1 = ground arith in
          let crossed : (m ≡ 0) ⊎ (taken / 31 < (taken + suc (length xs)) / 31) =
            ground (arith, r.head_at, r.tail_at) in
          (
            v.head_index + 2 + m,
            omega (arith, r.head_at, even, le),
            ground (arith, even, crossed),
            pop_raw-unmarked v (omega (arith, inside)) present small m even
                  (omega (arith, r.head_at, r.tail_at)) refl
                ∙ placed (v.head_index + 2 + m),
          )
      | inr lt ↦ elim (ℕ_discrete (v.head_index % 2) 0) [
        | yes even ↦
            let m : ℕ = if v.head_index / 2 / 32 == v.tail_index / 2 / 32 then 0 else 1 in
            let le : m ≤ 1 = ground arith in
            (
              v.head_index + 2 + m,
              omega (arith, r.head_at, even, le),
              inr lt,
              pop_raw-unmarked v (omega (arith, inside)) present small m even
                    (omega (arith, r.head_at, r.tail_at)) refl
                  ∙ placed (v.head_index + 2 + m),
            )
        | no odd ↦ (
          v.head_index + 2,
          omega (arith, r.head_at),
          inr lt,
          pop_raw-marked v (omega (arith, inside)) present small (omega (arith, odd))
              ∙ placed (v.head_index + 2),
        )
      ]
    ]
      where
        placed :
            (head : ℕ)
            → pop_won v v.head_block (v.head_index / 2 % 32) head
              ≡ pop_won v (at (taken / 31)) (taken % 31) head
        placed head =
            ap (λ b. pop_won v b (v.head_index / 2 % 32) head) r.chain.head_ptr
            ∙ ap (λ o. pop_won v (at (taken / 31)) o head) inside

    pop_end :
        (head : ℕ)
        → taken % 31 ≡ 30
        → head / 2 ≡ place_of taken + 1
        → (reclaim : Bool) × (w : InnerVec T) × (pop_won v (at (taken / 31)) (taken % 31) head
            ≡ some (some x, reclaim, w))
          × Rep w xs at (taken + 1) (at (taken / 31) ∷ dead)
    pop_end head end e =
        let next : ℕ = at (taken / 31 + 1) in
        let past : taken / 31 < (taken + suc (length xs)) / 31 = omega (arith, end) in
        let head' : ℕ = (head - head % 2 + 2) % 2 ^ 64 + mark v next in
        let on : advance (record v { head_index = head }) (at (taken / 31)) head
            ≡ some (record v { head_index = head'; head_block = next }) =
          advance_lem (record v { head_index = head }) (at (taken / 31)) head next
            (r.chain.links (taken / 31) (omega arith) past)
            (r.chain.allocated (taken / 31 + 1) (omega arith) (omega (arith, past))).0 in
        (
          _,
          _,
          ap (λ o. pop_won v (at (taken / 31)) o head) end
              ∙ pop_won-end v (record v { head_index = head'; head_block = next }) (at (taken / 31))
                  head x on
                  (subst
                    (λ o. (v.heap (at (taken / 31))).slots o ≡ record { state = 1; value = some x })
                    end (front v x xs at taken dead r))
                  (r.chain.head_reads ∙ end)
              ∙ ap
                  (λ o. some (
                    some x,
                    due v,
                    retire
                        (read_slot (record v { head_index = head'; head_block = next })
                          (at (taken / 31)) o 31)
                        (at (taken / 31)),
                  ))
                  (sym end),
          passes v x xs at taken dead r head' (omega (arith, e, end, mark_lem past, r.bound))
              (ground (arith, mark_lem past, end)) end,
        )

  pop-Rep :
      (v : InnerVec T) (x : T) (xs : List T) (at : ℕ → ℕ) (taken : ℕ) (dead : List ℕ)
      → Rep v (x ∷ xs) at taken dead
      → (reclaim : Bool) × (w : InnerVec T) × (pop_raw v ≡ some (some x, reclaim, w))
        × (dead' : List ℕ) × Rep w xs at (taken + 1) dead'
  pop-Rep v x xs at taken dead r =
      let (head, head_at, flag, raw) = pop_raw_lem v x xs at taken dead r in
      elim (ℕ_discrete (taken % 31) 30) [
        | yes end ↦
            let (reclaim, w, won, rep) = pop_end v x xs at taken dead r head end head_at in
            (reclaim, w, raw ∙ won, at (taken / 31) ∷ dead, rep)
        | no ne ↦ (
          false,
          stayed v x xs at taken dead r head head_at flag ne,
          raw
              ∙ pop_won-inside v (at (taken / 31)) (taken % 31) head x
                  (front v x xs at taken dead r) r.chain.head_reads (omega (arith, ne)),
          dead,
          stays v x xs at taken dead r head head_at flag ne,
        )
      ]

-- `pop_raw` by a thread that is alone returns the first value of a vector that has one, and leaves
-- the others.
pub pop_raw-Holds :
    {T : Type 0} (v : InnerVec T) (x : T) (xs : List T) (n : ℕ)
    → Holds v (x ∷ xs) n
    → (reclaim : Bool) × (w : InnerVec T) × (pop_raw v ≡ some (some x, reclaim, w)) × Holds w xs n
pop_raw-Holds v x xs n h =
    let (reclaim, w, e, dead, rep) = pop-Rep v x xs h.at h.taken h.dead h.rep in
    (
      reclaim,
      w,
      e,
      record {
        at = h.at;
        taken = h.taken + 1;
        dead = dead;
        rep = rep;
        total = omega (arith, h.total);
      },
    )

-- `pop_raw` finds nothing in a vector that stands for no values, and leaves it.
pub pop_raw-none :
    {T : Type 0} (v : InnerVec T) (n : ℕ) → Holds v [] n → pop_raw v ≡ some (none, false, v)
unfolding pop_raw
pop_raw-none v n h =
    let r = h.rep in
    let even : v.head_index % 2 ≡ 0 = omega (arith, r.flag) in
    let inside : v.head_index / 2 % 32 ≢ 31 = omega (arith, r.head_at) in
    let present : 0 < v.head_block =
      rw r.chain.head_ptr (r.chain.allocated (h.taken / 31) (omega arith) r.chain.ordered).0 in
    let same : v.head_index / 2 ≡ v.tail_index / 2 = omega (arith, r.head_at, r.tail_at) in
    let small : v.head_index + 2 < 2 ^ 64 = omega (arith, r.head_at, r.bound) in
    ground (arith, inside, present, even, same, small)
