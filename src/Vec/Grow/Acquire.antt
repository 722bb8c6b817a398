-- ===== src/Vec/Grow/Acquire.antt =====
-- atomic/vec.rs: `acquire_block` hands out a block that is nobody's.
use crossync.Prelude.{
  ℕ, ◌+◌, ◌≤◌, ◌<◌, ◌≡◌, ◌≢◌, refl, sym, ap, ◌∙◌, List, [], ◌∷◌, ◌++◌, arith, All,
}
use mathlib.Core.Path.{subst}
use crossync.Vec.Memory.{InnerVec, zeroed, put, acquire_from}
use crossync.Vec.Rep.{Distinct, IsClean, Chain, Outside, Spare}
use crossync.Vec.Frame.{All-map, same-Stack}
use crossync.Vec.Grow.Lists.{Distinct-middle, All-drop, All-left, All-right}

module _ {T : Type 0} where
  -- The block `n` is nobody's, and empty.
  pub record Gained (v : InnerVec T) (at : ℕ → ℕ) (first last : ℕ) (dead : List ℕ) (n : ℕ)
      : Type 0 where
    pub out : Outside v at first last n
    pub other : All (λ q. n ≢ q) (dead ++ v.free_list)
    pub clean : IsClean (v.heap n)

  -- What `acquire_block` does: it hands such a block out, and leaves the blocks in use.
  pub record Acquires (v w : InnerVec T) (at : ℕ → ℕ) (first last reads : ℕ) (dead : List ℕ) (n : ℕ)
      : Type 0 where
    pub gained : Gained w at first last dead n
    pub chain : Chain w at first last reads
    pub spare : Spare w at first last dead
    pub kept : (k : ℕ) → first ≤ k → k ≤ last → w.heap (at k) ≡ v.heap (at k)
    pub head_kept : w.head_index ≡ v.head_index

  module _ (v : InnerVec T) (at : ℕ → ℕ) (first last reads : ℕ) (dead : List ℕ)
      (c : Chain v at first last reads) (s : Spare v at first last dead) where
    acquire_pooled :
        (p : ℕ) (rest : List ℕ)
        → v.free_list ≡ p ∷ rest
        → Acquires v (record v { free_list = rest }) at first last reads dead p
    acquire_pooled p rest e = record {
      gained = record {
        out =
            (All-drop (Outside v at first last) dead rest p
              (subst (λ l. All (Outside v at first last) (dead ++ l)) e s.outside)).0;
        other = (Distinct-middle dead rest p (subst (λ l. Distinct (dead ++ l)) e s.apart)).1;
        clean = (subst (All (λ p. IsClean (v.heap p))) e s.clean).0;
      };
      chain = record {
        ordered = c.ordered;
        head_ptr = c.head_ptr;
        tail_ptr = c.tail_ptr;
        links = c.links;
        no_more = c.no_more;
        head_reads = c.head_reads;
        no_reads = c.no_reads;
        distinct = c.distinct;
        allocated = c.allocated;
        cached = c.cached;
      };
      spare = record {
        apart = (Distinct-middle dead rest p (subst (λ l. Distinct (dead ++ l)) e s.apart)).0;
        outside =
            (All-drop (Outside v at first last) dead rest p
              (subst (λ l. All (Outside v at first last) (dead ++ l)) e s.outside)).1;
        clean = (subst (All (λ p. IsClean (v.heap p))) e s.clean).1;
        stack = s.stack;
        counted = s.counted;
      };
      kept = λ k lo hi. refl;
      head_kept = refl;
    }

    -- A block that was never used is nobody's.
    untouched : (k : ℕ) → first ≤ k → k ≤ last → put v.heap v.fresh zeroed (at k) ≡ v.heap (at k)
    untouched k lo hi = ground (arith, c.allocated k lo hi)

    below : All (λ q. q < v.fresh) (dead ++ v.free_list)
    below = All-map (λ q o. o.1) (dead ++ v.free_list) s.outside

    spared : (q : ℕ) → q < v.fresh → put v.heap v.fresh zeroed q ≡ v.heap q
    spared q lt = ground arith

    acquire_new :
        Acquires v
          (record v { heap = put v.heap v.fresh zeroed; fresh = v.fresh + 1 })
          at
          first
          last
          reads
          dead
          v.fresh
    acquire_new = record {
      gained = record {
        out = (
          omega (arith, (c.allocated first (omega arith) c.ordered).1),
          omega arith,
          λ k lo hi. ground (arith, c.allocated k lo hi),
        );
        other = All-map (λ q lt. ground (arith, lt)) (dead ++ v.free_list) below;
        clean = ground arith;
      };
      chain = record {
        ordered = c.ordered;
        head_ptr = c.head_ptr;
        tail_ptr = c.tail_ptr;
        links = λ k lo hi. ap (λ b. b.next) (untouched k lo (omega arith)) ∙ c.links k lo hi;
        no_more = ap (λ b. b.next) (untouched last c.ordered (omega arith)) ∙ c.no_more;
        head_reads = ap (λ b. b.counters) (untouched first (omega arith) c.ordered) ∙ c.head_reads;
        no_reads =
            λ k lo hi. ap (λ b. b.counters) (untouched k (omega arith) hi) ∙ c.no_reads k lo hi;
        distinct = c.distinct;
        allocated = λ k lo hi. omega (arith, c.allocated k lo hi);
        cached = c.cached;
      };
      spare = record {
        apart = s.apart;
        outside = All-map (λ q o. (o.0, omega (arith, o.1), o.2)) (dead ++ v.free_list) s.outside;
        clean = pooled v.free_list (All-right (λ q. q < v.fresh) dead v.free_list below) s.clean;
        stack =
            same-Stack (put v.heap v.fresh zeroed) v.heap v.retired dead
              (All-map (λ q lt. ap (λ b. b.next) (spared q lt)) dead
                (All-left (λ q. q < v.fresh) dead v.free_list below))
              s.stack;
        counted = s.counted;
      };
      kept = untouched;
      head_kept = refl;
    }
      where
        pooled :
            (ps : List ℕ)
            → All (λ q. q < v.fresh) ps
            → All (λ p. IsClean (v.heap p)) ps
            → All (λ p. IsClean (put v.heap v.fresh zeroed p)) ps
        pooled [] lt k = tt
        pooled (p ∷ ps) lt k = (subst IsClean (sym (spared p lt.0)) k.0, pooled ps lt.1 k.1)

    pub acquire_lem :
        (l : List ℕ)
        → v.free_list ≡ l
        → let (n, w) = acquire_from l v in Acquires v w at first last reads dead n
    acquire_lem [] e = acquire_new
    acquire_lem (p ∷ rest) e = acquire_pooled p rest e
