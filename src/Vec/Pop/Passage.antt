-- ===== src/Vec/Pop/Passage.antt =====
-- atomic/vec.rs: the blocks after the value at the head has left, in its block or at its end.
use crossync.Prelude.{
  ℕ, suc, ◌+◌, ◌*◌, ◌/◌, ◌%◌, ◌≤◌, ◌<◌, ◌≡◌, ◌≢◌, ◌⊎◌, inl, inr, refl, sym, ap, ◌∙◌, some, List,
  ◌∷◌, ◌++◌, arith, length, get_elem?, lt_of_get_elem?, All,
}
use native.Mathlib.Decide.{ℕ_discrete}
use mathlib.Core.Path.{subst}
use crossync.Vec.Memory.{InnerVec, retire}
use crossync.Vec.Rep.{place_of, Stack, Chain, Spare, Filled, Rep}
use crossync.Vec.Grow.{All-left, All-right}
use crossync.Vec.Frame.{All-of, All-map, same-Stack}
use crossync.Vec.Pop.Turns.{
  read_slot, read_slot-other, read_slot-next, read_slot-counters, read_slot-slots, IsClean-kept,
}

module _ {T : Type 0} where
  module _ (v : InnerVec T) (x : T) (xs : List T) (at : ℕ → ℕ) (taken : ℕ) (dead : List ℕ)
      (r : Rep v (x ∷ xs) at taken dead) where
    first : ℕ
    first = taken / 31

    last : ℕ
    last = (taken + suc (length xs)) / 31

    -- The value that is popped, and those behind it.
    pub front : (v.heap (at (taken / 31))).slots (taken % 31) ≡ record { state = 1; value = some x }
    front = subst (λ n. Filled v at n x) (omega arith) (r.filled 0 x refl)

    behind : (i : ℕ) (y : T) → get_elem? xs i ≡ some y → Filled v at (taken + 1 + i) y
    behind i y e = subst (λ n. Filled v at n y) (omega arith) (r.filled (suc i) y e)

    -- Its slot is not one of theirs.
    other_slot :
        (i : ℕ)
        → i < length xs
        → (at (taken / 31) ≢ at ((taken + 1 + i) / 31)) ⊎ (taken % 31 ≢ (taken + 1 + i) % 31)
    other_slot i lt = elim (ℕ_discrete (taken / 31) ((taken + 1 + i) / 31)) [
      | yes e ↦ inr (λ m. omega (arith, e, m))
      | no ne ↦ inl (
          r.chain.distinct (taken / 31) ((taken + 1 + i) / 31) (omega arith) (omega arith)
            (omega arith) (omega (arith, lt)) ne)
    ]

    -- A pop that stays in its block.
    module _ (head : ℕ) (head_at : head / 2 ≡ place_of taken + 1)
        (flag : (head % 2 ≡ 0) ⊎ (taken / 31 < (taken + suc (length xs)) / 31))
        (ne : taken % 31 ≢ 30) where
      abbrev pub stayed : InnerVec T
      stayed =
          read_slot (record v { head_index = head }) (at (taken / 31)) (taken % 31) (taken % 31 + 1)

      pub stays : Rep stayed xs at (taken + 1) dead
      stays = record {
        bound = omega (arith, r.bound);
        head_at = omega (arith, head_at, ne);
        tail_at = r.tail_at ∙ ap (λ n. place_of n * 2) total;
        flag = ground (arith, flag, same_block, total);
        few = omega (arith, r.few);
        chain = rw (sym same_block, sym total) chained;
        spare = rw (sym same_block, sym total) spared;
        filled = λ i y e.
            read_slot-slots (record v { head_index = head }) (at (taken / 31)) (taken % 31)
              (taken % 31 + 1) (at ((taken + 1 + i) / 31)) ((taken + 1 + i) % 31)
              (other_slot i (lt_of_get_elem? xs i e))
            ∙ behind i y e;
      }
        where
          total : taken + suc (length xs) ≡ taken + 1 + length xs
          total = omega arith

          same_block : taken / 31 ≡ (taken + 1) / 31
          same_block = omega (arith, ne)

          claimed : InnerVec T
          claimed = record v { head_index = head }

          kept_next : (q : ℕ) → (stayed.heap q).next ≡ (v.heap q).next
          kept_next q = read_slot-next claimed (at (taken / 31)) (taken % 31) (taken % 31 + 1) q

          kept_block :
              (k : ℕ)
              → taken / 31 < k
              → k ≤ (taken + suc (length xs)) / 31
              → stayed.heap (at k) ≡ v.heap (at k)
          kept_block k lo hi =
              read_slot-other claimed (at (taken / 31)) (taken % 31) (taken % 31 + 1) (at k) (
                r.chain.distinct (taken / 31) k (omega arith) (omega arith) (omega arith) hi
                  (omega arith))

          spare_kept : All (λ q. stayed.heap q ≡ v.heap q) (dead ++ v.free_list)
          spare_kept =
              All-map
                (λ q o.
                  read_slot-other claimed (at (taken / 31)) (taken % 31) (taken % 31 + 1) q
                    (o.2 (taken / 31) (omega arith) (omega arith)))
                (dead ++ v.free_list) r.spare.outside

          chained : Chain stayed at (taken / 31) ((taken + suc (length xs)) / 31) ((taken + 1) % 31)
          chained = record {
            ordered = r.chain.ordered;
            head_ptr = r.chain.head_ptr;
            tail_ptr = r.chain.tail_ptr;
            links = λ k lo hi. kept_next (at k) ∙ r.chain.links k lo hi;
            no_more = kept_next (at ((taken + suc (length xs)) / 31)) ∙ r.chain.no_more;
            head_reads =
                read_slot-counters claimed (at (taken / 31)) (taken % 31) (taken % 31 + 1)
                ∙ omega (arith, ne);
            no_reads =
                λ k lo hi. ap (λ b. b.counters) (kept_block k lo hi) ∙ r.chain.no_reads k lo hi;
            distinct = r.chain.distinct;
            allocated = r.chain.allocated;
            cached = r.chain.cached;
          }

          spared : Spare stayed at (taken / 31) ((taken + suc (length xs)) / 31) dead
          spared = record {
            apart = r.spare.apart;
            outside = r.spare.outside;
            clean =
                IsClean-kept stayed.heap v.heap v.free_list
                  (All-right (λ q. stayed.heap q ≡ v.heap q) dead v.free_list spare_kept)
                  r.spare.clean;
            stack =
                same-Stack stayed.heap v.heap v.retired dead (All-of kept_next dead) r.spare.stack;
            counted = r.spare.counted;
          }

    -- A pop of the 31st value of a block.
    module _ (head : ℕ) (head_at : head / 2 ≡ place_of (taken + 1))
        (flag : (head % 2 ≡ 0) ⊎ ((taken + 1) / 31 < (taken + 1 + length xs) / 31))
        (end : taken % 31 ≡ 30) where
      abbrev pub moved : InnerVec T
      moved = record v { head_index = head; head_block = at (taken / 31 + 1) }

      abbrev pub passed : InnerVec T
      passed = retire (read_slot moved (at (taken / 31)) (taken % 31) 31) (at (taken / 31))

      passed-other : (q : ℕ) → at (taken / 31) ≢ q → passed.heap q ≡ v.heap q
      passed-other q ne = ground (arith, ne)

      passed-slots :
          (q j : ℕ)
          → (at (taken / 31) ≢ q) ⊎ (taken % 31 ≢ j)
          → (passed.heap q).slots j ≡ (v.heap q).slots j
      passed-slots q j (inl h) = ground (arith, h)
      passed-slots q j (inr h) = ground (arith, h)

      passed-next : (passed.heap (at (taken / 31))).next ≡ v.retired
      passed-next = ground arith

      pub passes : Rep passed xs at (taken + 1) (at (taken / 31) ∷ dead)
      passes = record {
        bound = omega (arith, r.bound);
        head_at = head_at;
        tail_at = r.tail_at ∙ ap (λ n. place_of n * 2) total;
        flag = flag;
        few = omega (arith, r.few, end);
        chain = rw (sym new_first, sym total, none_read) chained;
        spare = rw (sym new_first, sym total) spared;
        filled = λ i y e.
            passed-slots (at ((taken + 1 + i) / 31)) ((taken + 1 + i) % 31)
              (other_slot i (lt_of_get_elem? xs i e))
            ∙ behind i y e;
      }
        where
          total : taken + suc (length xs) ≡ taken + 1 + length xs
          total = omega arith

          new_first : taken / 31 + 1 ≡ (taken + 1) / 31
          new_first = omega (arith, end)

          none_read : (taken + 1) % 31 ≡ 0
          none_read = omega (arith, end)

          kept :
              (k : ℕ)
              → taken / 31 < k
              → k ≤ (taken + suc (length xs)) / 31
              → passed.heap (at k) ≡ v.heap (at k)
          kept k lo hi = passed-other (at k) (
              r.chain.distinct (taken / 31) k (omega arith) (omega arith) (omega arith) hi
                (omega arith))

          chained : Chain passed at (taken / 31 + 1) ((taken + suc (length xs)) / 31) 0
          chained = record {
            ordered = omega (arith, end);
            head_ptr = refl;
            tail_ptr = r.chain.tail_ptr;
            links = λ k lo hi.
                ap (λ b. b.next) (kept k (omega arith) (omega arith))
                ∙ r.chain.links k (omega arith) hi;
            no_more =
                ap (λ b. b.next)
                  (kept ((taken + suc (length xs)) / 31) (omega (arith, end)) (omega arith))
                ∙ r.chain.no_more;
            head_reads =
                ap (λ b. b.counters) (kept (taken / 31 + 1) (omega arith) (omega (arith, end)))
                ∙ r.chain.no_reads (taken / 31 + 1) (omega arith) (omega (arith, end));
            no_reads = λ k lo hi.
                ap (λ b. b.counters) (kept k (omega arith) hi)
                ∙ r.chain.no_reads k (omega arith) hi;
            distinct = λ j k lj hj lk hk. r.chain.distinct j k (omega arith) hj (omega arith) hk;
            allocated = λ k lo hi. r.chain.allocated k (omega arith) hi;
            cached = λ k lo hi. r.chain.cached k (omega arith) hi;
          }

          kept_spare : All (λ q. passed.heap q ≡ v.heap q) (dead ++ v.free_list)
          kept_spare =
              All-map (λ q o. passed-other q (o.2 (taken / 31) (omega arith) (omega arith)))
                (dead ++ v.free_list) r.spare.outside

          spared :
              Spare passed at
                (taken / 31 + 1)
                ((taken + suc (length xs)) / 31)
                (at (taken / 31) ∷ dead)
          spared = record {
            apart = (
              All-map (λ q o. o.2 (taken / 31) (omega arith) (omega arith)) (dead ++ v.free_list)
                  r.spare.outside,
              r.spare.apart,
            );
            outside = (
              (
                (r.chain.allocated (taken / 31) (omega arith) (omega arith)).0,
                (r.chain.allocated (taken / 31) (omega arith) (omega arith)).1,
                λ k lo hi.
                    r.chain.distinct k (taken / 31) (omega arith) hi (omega arith) (omega arith)
                      (omega arith),
              ),
              All-map (λ q o. (o.0, o.1, λ k lo hi. o.2 k (omega arith) hi)) (dead ++ v.free_list)
                  r.spare.outside,
            );
            clean =
                IsClean-kept passed.heap v.heap v.free_list
                  (All-right (λ q. passed.heap q ≡ v.heap q) dead v.free_list kept_spare)
                  r.spare.clean;
            stack = (
              refl,
              same-Stack passed.heap v.heap _ dead
                  (All-map (λ q e. ap (λ b. b.next) e) dead
                    (All-left (λ q. passed.heap q ≡ v.heap q) dead v.free_list kept_spare))
                  (subst (λ p. Stack v.heap p dead) (sym passed-next) r.spare.stack),
            );
            counted = omega (arith, r.spare.counted, r.few, r.bound);
          }
