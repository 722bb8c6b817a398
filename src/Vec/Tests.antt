-- ===== src/Vec/Tests.antt =====
-- atomic/vec.rs: an `AtomicVec` of two values, a block that is passed, and the theorems there.
use crossync.Prelude.{
  ℕ, zero, suc, ◌≡◌, refl, sym, ◌∙◌, arith, true, some, List, [], ◌∷◌, length, ◌>>=◌, none, ◌+◌,
  ◌==◌,
}
use mathlib.Core.Option.{some-injective}
use mathlib.Core.Path.{subst}
use crossync.Vec.Memory.{InnerVec, set_slot, reclaim_retired}
use crossync.Vec.Ends.{new_vec, push_internal, pop_won, pop_raw}
use crossync.Vec.Rep.{Holds}
use crossync.Vec.Calls.{pop, len, push_batch, pop_batch, drain, reset_with, capacity}
use crossync.Vec.Access.{get_inner}
use crossync.Vec.Push.{push_lem}
use crossync.Vec.Queue.{new_vec-Holds, pop-Holds}
use crossync.Vec.Batch.{push_batch-Holds}
use crossync.Vec.Scan.{index_of_inner, find_inner, fold_inner, reduce_inner}
use crossync.Vec.Found.{scans_lem}
use crossync.Vec.At.{get_inner_lem}
use crossync.Vec.Reclaim.{reclaim_retired-Holds}
use crossync.Vec.Reset.{reset_with-Holds}
use crossync.Vec.Api.{
  start_vec, filled, push, pop_one, count, swap_at, done, value, truth, size, call_vecs,
}
use crossync.Vec.Create.{with_capacity, add_blocks}
use crossync.Vec.Refinement.{call_vecs_refines}

abbrev stocked : InnerVec ℕ
stocked =
    set_slot
      (set_slot (record new_vec { tail_index = 4 }) 1 0 (record { state = 1; value = some 5 })) 1 1
      (record { state = 1; value = some 6 })

stock : push_batch new_vec (5 ∷ 6 ∷ []) ≡ some stocked
unfolding push_batch push_internal
stock = refl

stocked-Holds : Holds stocked (5 ∷ 6 ∷ []) 2
stocked-Holds =
    let (w, e, h) = push_batch-Holds new_vec [] (5 ∷ 6 ∷ []) 0 new_vec-Holds (omega arith) in
    subst (λ v. Holds v (5 ∷ 6 ∷ []) 2) (some-injective w stocked (sym e ∙ stock)) h

capacity_stocked : capacity stocked ≡ 32
unfolding capacity
capacity_stocked = refl

-- The values 1 to `n`, the last one first.
abbrev countdown : ℕ → List ℕ
countdown zero = []
countdown (suc n) = suc n ∷ countdown n

-- More values than a block holds come out in their order.
drain_two_blocks :
    (push_batch new_vec (countdown 33) >>= λ v. drain v >>= λ r. some r.0) ≡ some (countdown 33)
unfolding push_batch push_internal drain len pop_batch pop pop_raw pop_won
drain_two_blocks = refl

call_vecs_refines_example :
    (w : InnerVec ℕ) × (n : ℕ) × ((start_vec (filled (4 ∷ []))
        >>= call_vecs (push 5 ∷ push 6 ∷ swap_at 0 2 ∷ pop_one ∷ count ∷ []))
      ≡ some (done ∷ done ∷ truth true ∷ value (some 6) ∷ size 2 ∷ [], w))
    × Holds w (5 ∷ 4 ∷ []) n
call_vecs_refines_example =
    call_vecs_refines (filled (4 ∷ [])) (push 5 ∷ push 6 ∷ swap_at 0 2 ∷ pop_one ∷ count ∷ [])
      (omega arith)

-- A capacity of 100 puts three blocks in the pool, new none, and more than 64 are never put there.
pools :
    ((with_capacity {T = ℕ} 100).free_list ≡ 2 ∷ 3 ∷ 4 ∷ [])
    × ((with_capacity {T = ℕ} 0).free_list ≡ [])
    × (length (with_capacity {T = ℕ} 4000).free_list ≡ 64)
unfolding with_capacity add_blocks
pools = (refl, refl, refl)

push_lem_example :
    (w : InnerVec ℕ) × (push_internal stocked 7 ≡ some w) × Holds w (5 ∷ 6 ∷ 7 ∷ []) 3
push_lem_example = push_lem stocked (5 ∷ 6 ∷ []) 2 7 stocked-Holds (omega arith)

pop-Holds_example : (w : InnerVec ℕ) × (pop stocked ≡ some (some 5, w)) × Holds w (6 ∷ []) 2
pop-Holds_example = pop-Holds stocked 5 (6 ∷ []) 2 stocked-Holds

scans_lem_example :
    (index_of_inner (λ a b. a == b) stocked 6 ≡ some (some 1))
    × (find_inner (λ a. a == 7) stocked ≡ some none)
    × (fold_inner stocked 1 (λ a b. a + b) ≡ some 12)
    × (reduce_inner stocked (λ a b. a + b) ≡ some (some 11))
scans_lem_example =
    scans_lem stocked (5 ∷ 6 ∷ []) 2 stocked-Holds (λ a b. a == b) 6 (λ a. a == 7) 1 (λ a b. a + b)
      (λ a b. a + b)

get_inner_lem_example : get_inner stocked 1 ≡ some 6
get_inner_lem_example = get_inner_lem stocked (5 ∷ 6 ∷ []) 2 stocked-Holds 1

reset_with-Holds_example :
    (w : InnerVec ℕ) × (reset_with stocked (8 ∷ []) ≡ some (1, w)) × Holds w (8 ∷ []) 1
reset_with-Holds_example =
    reset_with-Holds stocked (5 ∷ 6 ∷ []) (8 ∷ []) 2 stocked-Holds (omega arith)

reclaim_retired-Holds_example :
    (w : InnerVec ℕ) × (reclaim_retired stocked ≡ some w)
    × (w.retired_count ≡ 0)
    × Holds w (5 ∷ 6 ∷ []) 2
reclaim_retired-Holds_example = reclaim_retired-Holds stocked (5 ∷ 6 ∷ []) 2 stocked-Holds
