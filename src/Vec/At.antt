-- ===== src/Vec/At.antt =====
-- atomic/vec.rs: `get` finds the value at its index, by the block array or along the blocks.
use crossync.Prelude.{
  ℕ, zero, suc, ◌+◌, ◌-◌, ◌/◌, ◌%◌, ◌≤◌, ◌<◌, ◌≡◌, inl, inr, sym, ap, ◌∙◌, List, arith, lt_or_ge,
  length, get_elem?, get_elem?-of_lt, get_elem?-eq-none,
}
use crossync.Vec.Memory.{InnerVec, get_entry}
use crossync.Vec.Rep.{Chain, Holds}
use crossync.Vec.Calls.{len}
use crossync.Vec.Queue.{len_lem}
use crossync.Vec.Access.{walk, get_block_at, locate, read_value, get_inner}

module _ {T : Type 0} where
  module _ (v : InnerVec T) (at : ℕ → ℕ) (first last reads : ℕ)
      (c : Chain v at first last reads) where
    walk_lem : (turns j : ℕ) → first ≤ j → j + turns ≤ last → walk turns v (at j) ≡ at (j + turns)
    unfolding walk
    walk_lem zero j lo hi = ap at (omega arith)
    walk_lem (suc turns) j lo hi =
        let go : walk (suc turns) v (at j) ≡ walk turns v (v.heap (at j)).next =
          ground (arith, (c.allocated j lo (omega arith)).0) in
        go
        ∙ ap (walk turns v) (c.links j lo (omega arith))
        ∙ walk_lem turns (j + 1) (omega arith) (omega arith)
        ∙ ap at (omega arith)

    -- A block is found by its number.
    pub get_block_at_lem : (k : ℕ) → first ≤ k → k ≤ last → get_block_at v k first ≡ at k
    unfolding get_block_at get_entry
    get_block_at_lem k lo hi = ground (arith, c.cached k lo hi, walk_there, (c.allocated k lo hi).0)
      where
        walk_there : walk (k - first) v v.head_block ≡ at k
        walk_there =
            ap (walk (k - first) v) c.head_ptr
            ∙ walk_lem (k - first) first (omega arith) (omega arith)
            ∙ ap at (omega arith)

  module _ (v : InnerVec T) (xs : List T) (n : ℕ) (h : Holds v xs n) where
    pub located :
        (i : ℕ)
        → ((locate (v.head_index / 2) i).0 ≡ (h.taken + i) / 31)
          × ((locate (v.head_index / 2) i).1 ≡ (h.taken + i) % 31)
    located i = (omega (arith, h.rep.head_at), omega (arith, h.rep.head_at))

    pub found :
        (i : ℕ)
        → i < length xs
        → get_block_at v (locate (v.head_index / 2) i).0 (v.head_index / 2 / 32)
          ≡ h.at ((h.taken + i) / 31)
    found i lt =
        let begin : v.head_index / 2 / 32 ≡ h.taken / 31 = omega (arith, h.rep.head_at) in
        ap (λ k. get_block_at v k (v.head_index / 2 / 32)) (located i).0
        ∙ ap (get_block_at v ((h.taken + i) / 31)) begin
        ∙ get_block_at_lem v h.at (h.taken / 31) ((h.taken + length xs) / 31) (h.taken % 31)
            h.rep.chain ((h.taken + i) / 31) (omega arith) (omega (arith, lt))

    pub present : (i : ℕ) → i < length xs → 0 < h.at ((h.taken + i) / 31)
    present i lt = (h.rep.chain.allocated ((h.taken + i) / 31) (omega arith) (omega (arith, lt))).0

    -- `get` returns the value at the index, and `None` out of range.
    pub get_inner_lem : (i : ℕ) → get_inner v i ≡ get_elem? xs i
    unfolding get_inner
    get_inner_lem i = elim (lt_or_ge i (length xs)) [
      | inl lt ↦
          let (x, e) = get_elem?-of_lt xs i lt in
          let within : i < len v = omega (arith, len_lem v xs n h, lt) in
          let block : ℕ = h.at ((h.taken + i) / 31) in
          let offset : ℕ = (h.taken + i) % 31 in
          inside i within
          ∙ ap (λ b. read_value v b (locate (v.head_index / 2) i).1) (found i lt)
          ∙ ap (read_value v block) (located i).1
          ∙ ground (arith, present i lt, h.rep.filled i x e)
          ∙ sym e
      | inr ge ↦
          let out : len v ≤ i = omega (arith, len_lem v xs n h, ge) in
          ground (arith, out, get_elem?-eq-none xs i ge)
    ]
      where
        inside :
            (i : ℕ)
            → i < len v
            → get_inner v i
              ≡ read_value v
                  (get_block_at v (locate (v.head_index / 2) i).0 (v.head_index / 2 / 32))
                  (locate (v.head_index / 2) i).1
        inside i lt = ground (arith, lt)
