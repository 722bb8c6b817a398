-- ===== src/Vec/Grow/Link.antt =====
-- atomic/vec.rs: a block is linked behind the last one, and has its entry.
use crossync.Prelude.{
  ℕ, ◌+◌, ◌/◌, ◌%◌, ◌≤◌, ◌<◌, ◌≡◌, ◌≢◌, ◌⊎◌, inr, sym, ◌∙◌, List, [], ◌∷◌, ◌++◌, arith, All,
}
use native.Mathlib.Decide.{ℕ_discrete}
use crossync.Vec.Memory.{InnerVec, put}
use crossync.Vec.Ends.{grow_into}
use crossync.Vec.Rep.{IsClean, Chain, Outside, Spare}
use crossync.Vec.Frame.{All-map, same-Stack}
use crossync.Vec.Grow.Lists.{All-left, All-right}
use crossync.Vec.Grow.Acquire.{Gained}

module _ {T : Type 0} where
  -- The block `n` becomes the last of the chain, by its link and its entry in the block array.
  module _ (v : InnerVec T) (at : ℕ → ℕ) (first last reads : ℕ) (dead : List ℕ) (n new_tail : ℕ)
      (numbered : new_tail / 2 / 32 ≡ last) (c : Chain v at first last reads) where
    unfoldable pub linked : InnerVec T
    linked = grow_into n v (at last) new_tail

    unfoldable pub renamed : ℕ → ℕ
    renamed = put at (last + 1) n

    pub old_name : (k : ℕ) → k ≤ last → renamed k ≡ at k
    unfolding renamed
    old_name k le = ground arith

    pub new_name : renamed (last + 1) ≡ n
    unfolding renamed
    new_name = ground arith

    link_next : (q : ℕ) → at last ≢ q → (linked.heap q).next ≡ (v.heap q).next
    unfolding linked
    link_next q ne = ground (arith, ne)

    link_last : (linked.heap (at last)).next ≡ n
    unfolding linked
    link_last = ground arith

    link_counters : (q : ℕ) → (linked.heap q).counters ≡ (v.heap q).counters
    unfolding linked
    link_counters q = ground arith

    pub link_slots : (q i : ℕ) → (linked.heap q).slots i ≡ (v.heap q).slots i
    unfolding linked
    link_slots q i = ground arith

    module _ (g : Gained v at first last dead n) where
      links_on :
          (k : ℕ) → first ≤ k → k < last + 1 → (linked.heap (renamed k)).next ≡ renamed (k + 1)
      links_on k lo hi = elim (ℕ_discrete k last) [
        | yes e ↦ rw (old_name k (omega arith), e) (link_last ∙ sym new_name)
        | no ne ↦
            rw (old_name k (omega arith), old_name (k + 1) (omega (arith, ne)))
              (link_next (at k)
                  (c.distinct last k c.ordered (omega arith) lo (omega arith) (λ e. ne (sym e)))
                ∙ c.links k lo (omega (arith, ne)))
      ]

      apart_names :
          (j k : ℕ)
          → first ≤ j
          → j ≤ last + 1
          → first ≤ k
          → k ≤ last + 1
          → j ≢ k
          → renamed j ≢ renamed k
      apart_names j k lj hj lk hk ne = elim (ℕ_discrete j (last + 1)) [
        | yes ej ↦
            rw (ej, new_name, old_name k (omega (arith, ej, ne)))
              (λ e. g.out.2 k lk (omega (arith, ej, ne)) (sym e))
        | no nj ↦ elim (ℕ_discrete k (last + 1)) [
          | yes ek ↦
              rw (ek, new_name, old_name j (omega (arith, nj))) (g.out.2 j lj (omega (arith, nj)))
          | no nk ↦
              rw (old_name j (omega (arith, nj)), old_name k (omega (arith, nk)))
                (c.distinct j k lj (omega (arith, nj)) lk (omega (arith, nk)) ne)
        ]
      ]

      entry_kept :
          (k : ℕ)
          → k ≤ last
          → (v.tags (k % 32) ≢ k) ⊎ (v.ptrs (k % 32) ≡ 0) ⊎ (v.ptrs (k % 32) ≡ at k)
          → (linked.tags (k % 32) ≢ k)
            ⊎ (linked.ptrs (k % 32) ≡ 0)
            ⊎ (linked.ptrs (k % 32) ≡ renamed k)
      unfolding linked renamed
      entry_kept k le old = ground (arith, old)

      pub link-Chain : Chain linked renamed first (last + 1) reads
      unfolding linked
      link-Chain = record {
        ordered = omega (arith, c.ordered);
        head_ptr = rw (old_name first c.ordered) c.head_ptr;
        tail_ptr = sym new_name;
        links = links_on;
        no_more =
            rw new_name (link_next n (g.out.2 last c.ordered (omega arith)) ∙ g.clean.no_next);
        head_reads = rw (old_name first c.ordered) (link_counters (at first) ∙ c.head_reads);
        no_reads = λ k lo hi. elim (ℕ_discrete k (last + 1)) [
          | yes e ↦ rw (e, new_name) (link_counters n ∙ g.clean.no_reads)
          | no ne ↦
              rw (old_name k (omega (arith, ne)))
                (link_counters (at k) ∙ c.no_reads k lo (omega (arith, ne)))
        ];
        distinct = apart_names;
        allocated = λ k lo hi. elim (ℕ_discrete k (last + 1)) [
          | yes e ↦ rw (e, new_name) (g.out.0, g.out.1)
          | no ne ↦ rw (old_name k (omega (arith, ne))) (c.allocated k lo (omega (arith, ne)))
        ];
        cached = λ k lo hi. elim (ℕ_discrete k (last + 1)) [
          | yes e ↦ inr (inr (rw (e, new_name, numbered) (ground arith)))
          | no ne ↦ entry_kept k (omega (arith, ne)) (c.cached k lo (omega (arith, ne)))
        ];
      }

      pub link-Spare : Spare v at first last dead → Spare linked renamed first (last + 1) dead
      unfolding linked
      link-Spare s = record {
        apart = s.apart;
        outside = both (dead ++ v.free_list) g.other s.outside;
        clean =
            still v.free_list (All-right (Outside v at first last) dead v.free_list s.outside)
              s.clean;
        stack =
            same-Stack linked.heap v.heap v.retired dead
              (All-map (λ q o. link_next q (o.2 last c.ordered (omega arith))) dead
                (All-left (Outside v at first last) dead v.free_list s.outside))
              s.stack;
        counted = s.counted;
      }
        where
          both :
              (ps : List ℕ)
              → All (λ q. n ≢ q) ps
              → All (Outside v at first last) ps
              → All (Outside linked renamed first (last + 1)) ps
          both [] a o = tt
          both (q ∷ ps) a o = (
            (
              o.0.0,
              o.0.1,
              λ k lo hi. elim (ℕ_discrete k (last + 1)) [
                | yes e ↦ rw (e, new_name) a.0
                | no ne ↦ rw (old_name k (omega (arith, ne))) (o.0.2 k lo (omega (arith, ne)))
              ],
            ),
            both ps a.1 o.1,
          )

          still :
              (ps : List ℕ)
              → All (Outside v at first last) ps
              → All (λ p. IsClean (v.heap p)) ps
              → All (λ p. IsClean (linked.heap p)) ps
          still [] o k = tt
          still (q ∷ ps) o k = (
            record {
              no_next = link_next q (o.0.2 last c.ordered (omega arith)) ∙ k.0.no_next;
              no_reads = link_counters q ∙ k.0.no_reads;
            },
            still ps o.1 k.1,
          )
