-- ===== src/Vec/Create.antt =====
-- atomic/vec.rs: the constructors `with_capacity`, `init_with` and `from_iter`, by the thread that has
-- the vector to itself.
use crossync.Prelude.{
  ℕ, zero, suc, ◌+◌, ◌-◌, ◌/◌, ◌%◌, ◌≤◌, ◌<◌, ◌≡◌, ◌^◌, min, sym, ap, ◌∙◌, some, Option, List, [],
  ◌∷◌, ◌++◌, ◌==◌, if◌then◌else◌, arith, length, lt_of_get_elem?, All,
}
use native.Mathlib.Decide.{ℕ_discrete}
use mathlib.Core.Path.{subst}
use crossync.Vec.Memory.{InnerVec, put, zeroed}
use crossync.Vec.Ends.{new_vec}
use crossync.Vec.Rep.{Distinct, IsClean, Outside, Rep, Holds}
use crossync.Vec.Frame.{All-map, same-Stack}
use crossync.Vec.Reclaim.{All-snoc, Distinct-snoc}
use crossync.Vec.Grow.{All-left, All-right}
use crossync.Vec.Calls.{push_batch}
use crossync.Vec.Queue.{new_vec-Holds}
use crossync.Vec.Batch.{push_batch-Holds}

module _ {T : Type 0} where
  -- `Block::new`, with what the pool is after it.
  abbrev with_block : InnerVec T → List ℕ → InnerVec T
  with_block v pool = record v {
    heap = put v.heap v.fresh zeroed;
    fresh = v.fresh + 1;
    free_list = pool;
  }

  -- A turn of the loop in `with_capacity`: the pool takes the new block, or is full.
  abbrev pub add_block : InnerVec T → InnerVec T
  add_block v =
      with_block v (if length v.free_list == 512 then v.free_list else v.free_list ++ v.fresh ∷ [])

  unfoldable pub add_blocks : ℕ → InnerVec T → InnerVec T
  add_blocks zero v = v
  add_blocks (suc n) v = add_blocks n (add_block v)

  unfoldable pub with_capacity : ℕ → InnerVec T
  with_capacity cap = add_blocks (min ((cap + 31) / 32) 65 - 1) new_vec

  -- `init_with`, whose `init` gave `values`.
  unfoldable pub init_with : List T → Option (InnerVec T)
  init_with values = push_batch (with_capacity (length values)) values

  unfoldable pub from_iter : List T → Option (InnerVec T)
  from_iter values = push_batch new_vec values

  module _ (v : InnerVec T) (xs : List T) (at : ℕ → ℕ) (taken : ℕ) (dead : List ℕ)
      (r : Rep v xs at taken dead) where
    abbrev first : ℕ
    first = taken / 31

    abbrev last : ℕ
    last = (taken + length xs) / 31

    old_block : (pool : List ℕ) (q : ℕ) → q < v.fresh → (with_block v pool).heap q ≡ v.heap q
    old_block pool q lt = ground (arith, lt)

    chain_block :
        (pool : List ℕ) (k : ℕ)
        → first ≤ k
        → k ≤ last
        → (with_block v pool).heap (at k) ≡ v.heap (at k)
    chain_block pool k lo hi = old_block pool (at k) (r.chain.allocated k lo hi).1

    Outside-kept :
        (pool ps : List ℕ)
        → All (Outside v at first last) ps
        → All (Outside (with_block v pool) at first last) ps
    Outside-kept pool ps a = All-map (λ q o. (o.0, omega (arith, o.1), o.2)) ps a

    IsClean-kept :
        (pool ps : List ℕ)
        → All (Outside v at first last) ps
        → All (λ p. IsClean (v.heap p)) ps
        → All (λ p. IsClean ((with_block v pool).heap p)) ps
    IsClean-kept pool [] o a = tt
    IsClean-kept pool (q ∷ ps) o a =
        (subst IsClean (sym (old_block pool q o.0.1)) a.0, IsClean-kept pool ps o.1 a.1)

    with_block-Rep :
        (pool : List ℕ)
        → Distinct (dead ++ pool)
        → All (Outside (with_block v pool) at first last) (dead ++ pool)
        → All (λ p. IsClean ((with_block v pool).heap p)) pool
        → Rep (with_block v pool) xs at taken dead
    with_block-Rep pool apart outside clean = record {
      bound = r.bound;
      head_at = r.head_at;
      tail_at = r.tail_at;
      flag = r.flag;
      few = r.few;
      chain = record {
        ordered = r.chain.ordered;
        head_ptr = r.chain.head_ptr;
        tail_ptr = r.chain.tail_ptr;
        links = λ k lo hi.
            ap (λ b. b.next) (chain_block pool k lo (omega (arith, hi))) ∙ r.chain.links k lo hi;
        no_more =
            ap (λ b. b.next) (chain_block pool last r.chain.ordered (omega arith))
            ∙ r.chain.no_more;
        head_reads =
            ap (λ b. b.counters) (chain_block pool first (omega arith) r.chain.ordered)
            ∙ r.chain.head_reads;
        no_reads = λ k lo hi.
            ap (λ b. b.counters) (chain_block pool k (omega (arith, lo)) hi)
            ∙ r.chain.no_reads k lo hi;
        distinct = r.chain.distinct;
        allocated = λ k lo hi. let old = r.chain.allocated k lo hi in (old.0, omega (arith, old.1));
        cached = r.chain.cached;
      };
      spare = record {
        apart = apart;
        outside = outside;
        clean = clean;
        stack =
            same-Stack (with_block v pool).heap v.heap v.retired dead
              (All-map (λ q o. ap (λ b. b.next) (old_block pool q o.1)) dead
                (All-left (Outside v at first last) dead v.free_list r.spare.outside))
              r.spare.stack;
        counted = r.spare.counted;
      };
      filled = λ i x got.
          ap (λ b. b.slots ((taken + i) % 31))
            (chain_block pool ((taken + i) / 31) (omega arith)
              (omega (arith, lt_of_get_elem? xs i got)))
          ∙ r.filled i x got;
    }

    abbrev snoc : List ℕ
    snoc = v.free_list ++ v.fresh ∷ []

    add_block-Rep : Rep (add_block v) xs at taken dead
    add_block-Rep =
        let free_outside = All-right (Outside v at first last) dead v.free_list r.spare.outside in
        elim (ℕ_discrete (length v.free_list) 512) [
          | yes full ↦
              subst (λ pool. Rep (with_block v pool) xs at taken dead)
                (let e : v.free_list ≡ (if length v.free_list == 512 then v.free_list else snoc) =
                    ground (arith, full) in
                  e)
                (with_block-Rep v.free_list r.spare.apart
                  (Outside-kept v.free_list (dead ++ v.free_list) r.spare.outside)
                  (IsClean-kept v.free_list v.free_list free_outside r.spare.clean))
          | no room ↦
              subst (λ pool. Rep (with_block v pool) xs at taken dead)
                (let e : snoc ≡ (if length v.free_list == 512 then v.free_list else snoc) =
                    ground (arith, room) in
                  e)
                (with_block-Rep snoc
                  (Distinct-snoc dead v.free_list v.fresh r.spare.apart (
                    All-map (λ q o e. absurd (omega (arith, o.1, e))) (dead ++ v.free_list)
                      r.spare.outside))
                  (All-snoc (Outside (with_block v snoc) at first last) dead v.free_list v.fresh
                    (Outside-kept snoc (dead ++ v.free_list) r.spare.outside)
                    (
                      omega (arith, r.chain.allocated first (omega arith) r.chain.ordered),
                      omega arith,
                      λ k lo hi e. absurd (omega (arith, r.chain.allocated k lo hi, e)),
                    ))
                  (All-snoc (λ p. IsClean ((with_block v snoc).heap p)) [] v.free_list v.fresh
                    (IsClean-kept snoc v.free_list free_outside r.spare.clean)
                    (record { no_next = ground arith; no_reads = ground arith })))
        ]

  add_blocks-Holds :
      (n : ℕ) (v : InnerVec T) (xs : List T) (k : ℕ) → Holds v xs k → Holds (add_blocks n v) xs k
  unfolding add_blocks
  add_blocks-Holds zero v xs k h = h
  add_blocks-Holds (suc n) v xs k h = add_blocks-Holds n (add_block v) xs k (record {
    at = h.at;
    taken = h.taken;
    dead = h.dead;
    rep = add_block-Rep v xs h.at h.taken h.dead h.rep;
    total = h.total;
  })

  pub with_capacity-Holds : (cap : ℕ) → Holds (with_capacity cap) [] 0
  unfolding with_capacity
  with_capacity-Holds cap =
      add_blocks-Holds (min ((cap + 31) / 32) 65 - 1) new_vec [] 0 new_vec-Holds

  -- The pushes on a vector that is new.
  pub push_new-Holds :
      (v : InnerVec T) (values : List T)
      → Holds v [] 0
      → length values ≤ 2 ^ 62
      → (w : InnerVec T) × (push_batch v values ≡ some w) × Holds w values (length values)
  push_new-Holds v values h room =
      let (w, e, held) = push_batch-Holds v [] values 0 h (omega (arith, room)) in
      (
        w,
        e,
        subst (Holds w values) (let z : 0 + length values ≡ length values = omega arith in z) held,
      )
