-- ===== src/Vec/Reset.antt =====
-- atomic/vec.rs: `reset_with` starts again in one block.
use crossync.Prelude.{
  ℕ, ◌+◌, ◌/◌, ◌%◌, ◌^◌, ◌≤◌, ◌<◌, ◌≡◌, ◌≢◌, inl, inr, refl, sym, ap, ◌∙◌, some, List, [], ◌∷◌,
  arith, length, ◌>>=◌, All,
}
use mathlib.Core.Path.{subst}
use crossync.Vec.Memory.{InnerVec, put, reset_block, reclaim_retired}
use crossync.Vec.Rep.{IsClean, Outside, Spare, Holds}
use crossync.Vec.Frame.{All-map}
use crossync.Vec.Reclaim.{reclaim_retired-Holds}
use crossync.Vec.Calls.{push_batch, clear_entries, start_in, start_again, reset_with}
use crossync.Vec.Batch.{pop_every-Holds, push_batch-Holds}

module _ {T : Type 0} where
  -- The vector that `start_again` gives, where there is a head block.
  abbrev restarted : InnerVec T → InnerVec T
  restarted w =
      start_in
        (record (clear_entries (record w { head_index = 0; tail_index = 0 }) 32) {
          heap = put w.heap w.head_block (reset_block (w.heap w.head_block));
        })
        w.head_block

  start_again_lem : (w : InnerVec T) → 0 < w.head_block → start_again w ≡ restarted w
  start_again_lem w pos = ground (arith, pos)

  restarted-Holds :
      (w : InnerVec T) (n : ℕ) (h : Holds w [] n) → w.retired_count ≡ 0 → Holds (restarted w) [] 0
  restarted-Holds w n h count = record {
    at = λ k. w.head_block;
    taken = 0;
    dead = [];
    rep = record {
      bound = omega arith;
      head_at = refl;
      tail_at = refl;
      flag = inl refl;
      few = omega arith;
      chain = record {
        ordered = omega arith;
        head_ptr = refl;
        tail_ptr = refl;
        links = λ k lo hi. absurd (omega arith);
        no_more = ground arith;
        head_reads = ground arith;
        no_reads = λ k lo hi. absurd (omega arith);
        distinct = λ j k lj hj lk hk ne. absurd (omega arith);
        allocated = λ k lo hi.
            subst (λ b. (0 < b) × (b < w.fresh)) (sym h.rep.chain.head_ptr)
              (h.rep.chain.allocated (h.taken / 31) (omega arith) h.rep.chain.ordered);
        cached = λ k lo hi. inr (
            inr (
              subst (λ k. (restarted w).ptrs (k % 32) ≡ w.head_block)
                (let e : 0 ≡ k = omega (arith, hi) in e) refl));
      };
      spare = record {
        apart = spare.apart;
        outside = All-map (λ q o. (o.0, o.1, λ k lo hi. away q o)) w.free_list spare.outside;
        clean = cleaned w.free_list spare.outside spare.clean;
        stack = spare.stack;
        counted = count;
      };
      filled = λ i x e. ground (arith, e);
    };
    total = refl;
  }
    where
      emptied : (ps : List ℕ) → length ps ≡ 0 → ps ≡ []
      emptied [] e = refl
      emptied (p ∷ ps) e = absurd (omega (arith, e))

      spare : Spare w h.at (h.taken / 31) ((h.taken + 0) / 31) []
      spare =
          subst (Spare w h.at (h.taken / 31) ((h.taken + 0) / 31))
            (emptied h.dead (sym h.rep.spare.counted ∙ count)) h.rep.spare

      away : (q : ℕ) → Outside w h.at (h.taken / 31) ((h.taken + 0) / 31) q → w.head_block ≢ q
      away q o = rw h.rep.chain.head_ptr (o.2 (h.taken / 31) (omega arith) h.rep.chain.ordered)

      untouched : (q : ℕ) → w.head_block ≢ q → (restarted w).heap q ≡ w.heap q
      untouched q ne = ground (arith, ne)

      cleaned :
          (ps : List ℕ)
          → All (Outside w h.at (h.taken / 31) ((h.taken + 0) / 31)) ps
          → All (λ p. IsClean (w.heap p)) ps
          → All (λ p. IsClean ((restarted w).heap p)) ps
      cleaned [] o k = tt
      cleaned (q ∷ ps) o k =
          (subst IsClean (sym (untouched q (away q o.0))) k.0, cleaned ps o.1 k.1)

  -- With `cap` values below 2 ^ 62, `reset_with` drops the values and pushes those of `init`, and
  -- returns their number.
  pub reset_with-Holds :
      (v : InnerVec T) (xs values : List T) (n : ℕ)
      → Holds v xs n
      → length values ≤ 2 ^ 62
      → (w : InnerVec T) × (reset_with v values ≡ some (length values, w))
        × Holds w values (length values)
  unfolding reset_with
  reset_with-Holds v xs values n h room =
      let (w, e, h') = pop_every-Holds v xs n h in
      let (w', e', count, h'') = reclaim_retired-Holds w [] n h' in
      let pos : 0 < w'.head_block =
        rw h''.rep.chain.head_ptr
          (h''.rep.chain.allocated (h''.taken / 31) (omega arith) h''.rep.chain.ordered).0 in
      let (full, e'', held) =
        push_batch-Holds (restarted w') [] values 0 (restarted-Holds w' n h'' count)
          (omega (arith, room)) in
      (
        full,
        ap
              (λ o. o >>= λ r.
                let (gone, w) = r in
                reclaim_retired w >>= λ w'.
                push_batch (start_again w') values >>= λ full. some (length values, full))
              e
            ∙ ap
                (λ o. o >>= λ w'.
                  push_batch (start_again w') values >>= λ full. some (length values, full))
                e'
            ∙ ap (λ s. push_batch s values >>= λ full. some (length values, full))
                (start_again_lem w' pos)
            ∙ ap (λ o. o >>= λ full. some (length values, full)) e'',
        subst (Holds full values) (let z : 0 + length values ≡ length values = omega arith in z)
            held,
      )
