-- ===== src/Vec/Frame.antt =====
-- atomic/vec.rs: changes of an `AtomicVec` that its chain, pool and stack of blocks do not see.
use crossync.Prelude.{
  ℕ, ◌%◌, ◌≡◌, ◌≢◌, ◌⊎◌, inl, inr, refl, sym, ◌∙◌, List, [], ◌∷◌, ◌++◌, arith, All,
}
use mathlib.Core.Path.{subst}
use crossync.Vec.Memory.{VecSlot, Block, InnerVec, set_slot}
use crossync.Vec.Rep.{Stack, Chain, Spare}

pub All-of {κ} : {K : ℕ → Type κ} → ((q : ℕ) → K q) → (ps : List ℕ) → All K ps
All-of f [] = tt
All-of f (p ∷ ps) = (f p, All-of f ps)

pub All-map {κ μ} :
    {K : ℕ → Type κ} {L : ℕ → Type μ} → ((q : ℕ) → K q → L q) → (ps : List ℕ) → All K ps → All L ps
All-map f [] a = tt
All-map f (p ∷ ps) a = (f p a.0, All-map f ps a.1)

module _ {T : Type 0} where
  -- `w` has the blocks of `v`, but for their slots, and the same pointers to them.
  pub record Same (v w : InnerVec T) : Type 0 where
    pub head_block : w.head_block ≡ v.head_block
    pub tail_block : w.tail_block ≡ v.tail_block
    pub tags : (i : ℕ) → w.tags i ≡ v.tags i
    pub ptrs : (i : ℕ) → w.ptrs i ≡ v.ptrs i
    pub free_list : w.free_list ≡ v.free_list
    pub retired : w.retired ≡ v.retired
    pub retired_count : w.retired_count ≡ v.retired_count
    pub next : (p : ℕ) → (w.heap p).next ≡ (v.heap p).next
    pub counters : (p : ℕ) → (w.heap p).counters ≡ (v.heap p).counters
    pub fresh : w.fresh ≡ v.fresh

  pub Same-Chain :
      {v w : InnerVec T} {at : ℕ → ℕ} {first last reads : ℕ}
      → Same v w
      → Chain v at first last reads
      → Chain w at first last reads
  Same-Chain {v} {w} {at} {first} {last} s c = record {
    ordered = c.ordered;
    head_ptr = s.head_block ∙ c.head_ptr;
    tail_ptr = s.tail_block ∙ c.tail_ptr;
    links = λ k lo hi. s.next (at k) ∙ c.links k lo hi;
    no_more = s.next (at last) ∙ c.no_more;
    head_reads = s.counters (at first) ∙ c.head_reads;
    no_reads = λ k lo hi. s.counters (at k) ∙ c.no_reads k lo hi;
    distinct = c.distinct;
    allocated = λ k lo hi. rw s.fresh (c.allocated k lo hi);
    cached = λ k lo hi. ground (arith, s.tags (k % 32), s.ptrs (k % 32), c.cached k lo hi);
  }

  -- Blocks that differ in their slots alone are stacked alike.
  pub same-Stack :
      (g h : ℕ → Block T) (p : ℕ) (ps : List ℕ)
      → All (λ q. (g q).next ≡ (h q).next) ps
      → Stack h p ps
      → Stack g p ps
  same-Stack g h p [] same s = s
  same-Stack g h p (q ∷ qs) same s =
      (s.0, same-Stack g h (g q).next qs same.1 (subst (λ r. Stack h r qs) (sym same.0) s.1))

  pub Same-Spare :
      {v w : InnerVec T} {at : ℕ → ℕ} {first last : ℕ} {dead : List ℕ}
      → Same v w
      → Spare v at first last dead
      → Spare w at first last dead
  Same-Spare {v} {w} {at} {first} {last} {dead} s h = record {
    apart = rw s.free_list h.apart;
    outside = rw s.free_list (All-map (λ q o. rw s.fresh o) (dead ++ v.free_list) h.outside);
    clean = rw s.free_list (
        All-map
          (λ q k. record { no_next = s.next q ∙ k.no_next; no_reads = s.counters q ∙ k.no_reads })
          v.free_list h.clean);
    stack = rw s.retired (same-Stack w.heap v.heap v.retired dead (All-of s.next dead) h.stack);
    counted = s.retired_count ∙ h.counted;
  }

  -- A write to a slot.
  pub set_slot-Same : (v : InnerVec T) (p i : ℕ) (s : VecSlot T) → Same v (set_slot v p i s)
  set_slot-Same v p i s = record {
    head_block = refl;
    tail_block = refl;
    tags = λ i. refl;
    ptrs = λ i. refl;
    free_list = refl;
    retired = refl;
    retired_count = refl;
    next = λ q. ground arith;
    counters = λ q. ground arith;
    fresh = refl;
  }

  pub set_slot-other :
      (v : InnerVec T) (p i : ℕ) (s : VecSlot T) (q j : ℕ)
      → (p ≢ q) ⊎ (i ≢ j)
      → ((set_slot v p i s).heap q).slots j ≡ (v.heap q).slots j
  set_slot-other v p i s q j (inl h) = ground (arith, h)
  set_slot-other v p i s q j (inr h) = ground (arith, h)

  pub set_slot_self :
      (v : InnerVec T) (p i : ℕ) (s : VecSlot T) → ((set_slot v p i s).heap p).slots i ≡ s
  set_slot_self v p i s = ground arith

  -- A move of the indices.
  pub indices-Same :
      (v : InnerVec T) (h t : ℕ) → Same v (record v { head_index = h; tail_index = t })
  indices-Same v h t = record {
    head_block = refl;
    tail_block = refl;
    tags = λ i. refl;
    ptrs = λ i. refl;
    free_list = refl;
    retired = refl;
    retired_count = refl;
    next = λ q. refl;
    counters = λ q. refl;
    fresh = refl;
  }
