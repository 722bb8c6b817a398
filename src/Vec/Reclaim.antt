-- ===== src/Vec/Reclaim.antt =====
-- atomic/vec.rs: `reclaim_retired` empties the stack of retired blocks into the pool.
use crossync.Prelude.{
  ℕ, zero, suc, ◌+◌, ◌/◌, ◌%◌, ◌≤◌, ◌<◌, ◌≡◌, ◌≢◌, refl, sym, ap, ◌∙◌, some, List, [], ◌∷◌, ◌++◌,
  arith, length, lt_of_get_elem?, All,
}
use native.Mathlib.Decide.{ℕ_discrete}
use mathlib.Core.Path.{subst}
use crossync.Vec.Memory.{InnerVec, put, reset_block, recycle, recycle_all, reclaim_retired}
use crossync.Vec.Rep.{Distinct, Stack, IsClean, Chain, Outside, Rep, Holds}
use crossync.Vec.Frame.{All-map, same-Stack}
use crossync.Vec.Grow.{All-left, All-right}

pub All-snoc {κ} :
    (K : ℕ → Type κ) (ps qs : List ℕ) (p : ℕ)
    → All K (ps ++ qs)
    → K p
    → All K (ps ++ (qs ++ p ∷ []))
All-snoc K [] [] p a k = (k, tt)
All-snoc K [] (q ∷ qs) p a k = (a.0, All-snoc K [] qs p a.1 k)
All-snoc K (q ∷ ps) qs p a k = (a.0, All-snoc K ps qs p a.1 k)

pub Distinct-snoc :
    (ps qs : List ℕ) (p : ℕ)
    → Distinct (ps ++ qs)
    → All (λ q. p ≢ q) (ps ++ qs)
    → Distinct (ps ++ (qs ++ p ∷ []))
Distinct-snoc [] [] p d a = (tt, tt)
Distinct-snoc [] (q ∷ qs) p d a =
    (All-snoc (λ r. q ≢ r) [] qs p d.0 (λ e. a.0 (sym e)), Distinct-snoc [] qs p d.1 a.1)
Distinct-snoc (q ∷ ps) qs p d a =
    (All-snoc (λ r. q ≢ r) ps qs p d.0 (λ e. a.0 (sym e)), Distinct-snoc ps qs p d.1 a.1)

module _ {T : Type 0} where
  -- The loop has the blocks `ps` to go through.
  record Pending (v : InnerVec T) (at : ℕ → ℕ) (first last reads : ℕ) (ps : List ℕ) : Type 0 where
    pub chain : Chain v at first last reads
    pub apart : Distinct (ps ++ v.free_list)
    pub outside : All (Outside v at first last) (ps ++ v.free_list)
    pub clean : All (λ p. IsClean (v.heap p)) v.free_list

  -- What the loop leaves alone.
  record Stable (v w : InnerVec T) (at : ℕ → ℕ) (first last : ℕ) : Type 0 where
    pub head_index : w.head_index ≡ v.head_index
    pub tail_index : w.tail_index ≡ v.tail_index
    pub retired : w.retired ≡ v.retired
    pub retired_count : w.retired_count ≡ v.retired_count
    pub kept : (k : ℕ) → first ≤ k → k ≤ last → w.heap (at k) ≡ v.heap (at k)

  Stable-refl : (v : InnerVec T) (at : ℕ → ℕ) (first last : ℕ) → Stable v v at first last
  Stable-refl v at first last = record {
    head_index = refl;
    tail_index = refl;
    retired = refl;
    retired_count = refl;
    kept = λ k lo hi. refl;
  }

  module _ (v : InnerVec T) (at : ℕ → ℕ) (first last reads p : ℕ) (ps : List ℕ)
      (h : Pending v at first last reads (p ∷ ps)) where
    abbrev pooled : InnerVec T
    pooled = record v {
      heap = put v.heap p (reset_block (v.heap p));
      free_list = v.free_list ++ p ∷ [];
    }

    pooled-other : (q : ℕ) → p ≢ q → pooled.heap q ≡ v.heap q
    pooled-other q ne = ground (arith, ne)

    pooled-chain : (k : ℕ) → first ≤ k → k ≤ last → pooled.heap (at k) ≡ v.heap (at k)
    pooled-chain k lo hi = pooled-other (at k) (λ e. h.outside.0.2 k lo hi (sym e))

    pooled-Pending : Pending pooled at first last reads ps
    pooled-Pending = record {
      chain = record {
        ordered = h.chain.ordered;
        head_ptr = h.chain.head_ptr;
        tail_ptr = h.chain.tail_ptr;
        links =
            λ k lo hi. ap (λ b. b.next) (pooled-chain k lo (omega arith)) ∙ h.chain.links k lo hi;
        no_more =
            ap (λ b. b.next) (pooled-chain last h.chain.ordered (omega arith)) ∙ h.chain.no_more;
        head_reads =
            ap (λ b. b.counters) (pooled-chain first (omega arith) h.chain.ordered)
            ∙ h.chain.head_reads;
        no_reads = λ k lo hi.
            ap (λ b. b.counters) (pooled-chain k (omega arith) hi) ∙ h.chain.no_reads k lo hi;
        distinct = h.chain.distinct;
        allocated = h.chain.allocated;
        cached = h.chain.cached;
      };
      apart = Distinct-snoc ps v.free_list p h.apart.1 h.apart.0;
      outside = All-snoc (Outside v at first last) ps v.free_list p h.outside.1 h.outside.0;
      clean =
          All-snoc (λ q. IsClean (pooled.heap q)) [] v.free_list p
            (still v.free_list (All-right (λ q. p ≢ q) ps v.free_list h.apart.0) h.clean)
            (record { no_next = ground arith; no_reads = ground arith });
    }
      where
        still :
            (qs : List ℕ)
            → All (λ q. p ≢ q) qs
            → All (λ q. IsClean (v.heap q)) qs
            → All (λ q. IsClean (pooled.heap q)) qs
        still [] a k = tt
        still (q ∷ qs) a k = (subst IsClean (sym (pooled-other q a.0)) k.0, still qs a.1 k.1)

    -- One turn of the loop.
    recycle_lem :
        Stack v.heap (v.heap p).next ps
        → (w : InnerVec T) × (recycle v p ≡ w)
          × Pending w at first last reads ps
          × Stable v w at first last
          × Stack w.heap (v.heap p).next ps
    recycle_lem s = elim (ℕ_discrete (length v.free_list) 512) [
      | yes full ↦ (
        v,
        ground (arith, full),
        record { chain = h.chain; apart = h.apart.1; outside = h.outside.1; clean = h.clean },
        Stable-refl v at first last,
        s,
      )
      | no ne ↦ (
        pooled,
        ground (arith, ne),
        pooled-Pending,
        record {
          head_index = refl;
          tail_index = refl;
          retired = refl;
          retired_count = refl;
          kept = pooled-chain;
        },
        same-Stack pooled.heap v.heap (v.heap p).next ps
            (All-map (λ q o. ap (λ b. b.next) (pooled-other q o)) ps
              (All-left (λ q. p ≢ q) ps v.free_list h.apart.0))
            s,
      )
    ]

  recycle_all-next :
      (fuel : ℕ) (v : InnerVec T) (p : ℕ)
      → 0 < p
      → recycle_all (suc fuel) v p ≡ recycle_all fuel (recycle v p) (v.heap p).next
  unfolding recycle_all
  recycle_all-next fuel v p pos = ground (arith, pos)

  recycle_all_lem :
      (ps : List ℕ) (fuel : ℕ) (v : InnerVec T) (at : ℕ → ℕ) (first last reads block : ℕ)
      → length ps ≤ fuel
      → Pending v at first last reads ps
      → Stack v.heap block ps
      → (w : InnerVec T) × (recycle_all fuel v block ≡ some w)
        × Pending w at first last reads []
        × Stable v w at first last
  unfolding recycle_all
  recycle_all_lem [] zero v at first last reads block le h s =
      (v, ground (arith, s), h, Stable-refl v at first last)
  recycle_all_lem [] (suc fuel) v at first last reads block le h s =
      (v, ground (arith, s), h, Stable-refl v at first last)
  recycle_all_lem (p ∷ ps) zero v at first last reads block le h s = absurd (omega (arith, le))
  recycle_all_lem (p ∷ ps) (suc fuel) v at first last reads block le h s =
      let (w, turn, pending, stable, stack) = recycle_lem v at first last reads p ps h s.1 in
      let (w', loop, done, stable') =
        recycle_all_lem ps fuel w at first last reads (v.heap p).next (omega (arith, le)) pending
          stack in
      (
        w',
        ap (recycle_all (suc fuel) v) s.0
            ∙ recycle_all-next fuel v p h.outside.0.0
            ∙ ap (λ u. recycle_all fuel u (v.heap p).next) turn
            ∙ loop,
        done,
        record {
          head_index = stable'.head_index ∙ stable.head_index;
          tail_index = stable'.tail_index ∙ stable.tail_index;
          retired = stable'.retired ∙ stable.retired;
          retired_count = stable'.retired_count ∙ stable.retired_count;
          kept = λ k lo hi. stable'.kept k lo hi ∙ stable.kept k lo hi;
        },
      )

  swapped-Chain :
      (v : InnerVec T) (at : ℕ → ℕ) (first last reads : ℕ)
      → Chain v at first last reads
      → Chain (record v { retired = 0; retired_count = 0 }) at first last reads
  swapped-Chain v at first last reads c = record {
    ordered = c.ordered;
    head_ptr = c.head_ptr;
    tail_ptr = c.tail_ptr;
    links = c.links;
    no_more = c.no_more;
    head_reads = c.head_reads;
    no_reads = c.no_reads;
    distinct = c.distinct;
    allocated = c.allocated;
    cached = c.cached;
  }

  reclaim_retired-Rep :
      (v : InnerVec T) (xs : List T) (at : ℕ → ℕ) (taken : ℕ) (dead : List ℕ)
      → Rep v xs at taken dead
      → (w : InnerVec T) × (reclaim_retired v ≡ some w)
        × (w.retired_count ≡ 0)
        × Rep w xs at taken []
  unfolding reclaim_retired
  reclaim_retired-Rep v xs at taken dead r =
      let swapped : InnerVec T = record v { retired = 0; retired_count = 0 } in
      let (w, e, done, stable) =
        recycle_all_lem dead v.retired_count swapped at (taken / 31) ((taken + length xs) / 31)
          (taken % 31) v.retired (omega (arith, r.spare.counted))
          (record {
            chain = swapped-Chain v at _ _ _ r.chain;
            apart = r.spare.apart;
            outside = r.spare.outside;
            clean = r.spare.clean;
          })
          r.spare.stack in
      (
        w,
        e,
        stable.retired_count,
        record {
          bound = r.bound;
          head_at = ap (λ i. i / 2) stable.head_index ∙ r.head_at;
          tail_at = stable.tail_index ∙ r.tail_at;
          flag = ground (arith, r.flag, stable.head_index);
          few = omega arith;
          chain = done.chain;
          spare = record {
            apart = done.apart;
            outside = done.outside;
            clean = done.clean;
            stack = stable.retired;
            counted = stable.retired_count;
          };
          filled = λ i x got.
              ap (λ b. b.slots ((taken + i) % 31))
                (stable.kept ((taken + i) / 31) (omega arith)
                  (omega (arith, lt_of_get_elem? xs i got)))
              ∙ r.filled i x got;
        },
      )

-- `reclaim_retired` comes to the end of the stack, empties it, and leaves the values.
pub reclaim_retired-Holds :
    {T : Type 0} (v : InnerVec T) (xs : List T) (n : ℕ)
    → Holds v xs n
    → (w : InnerVec T) × (reclaim_retired v ≡ some w) × (w.retired_count ≡ 0) × Holds w xs n
reclaim_retired-Holds v xs n h =
    let (w, e, count, rep) = reclaim_retired-Rep v xs h.at h.taken h.dead h.rep in
    (w, e, count, record { at = h.at; taken = h.taken; dead = []; rep = rep; total = h.total })
