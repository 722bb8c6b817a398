-- ===== src/Vec/Batch.antt =====
-- atomic/vec.rs: the loops over `push_internal`, `pop` and `pop_internal`.
use crossync.Prelude.{
  ℕ, zero, suc, ◌+◌, ◌^◌, ◌≤◌, ◌<◌, ◌≡◌, refl, ap, ◌∙◌, none, some, List, [], ◌∷◌, ◌++◌, arith,
  length, get_elem?, take, drop, take-length, drop-length, length-reverse, length-erase_idx,
  erase_idx, ◌>>=◌,
}
use mathlib.Core.Path.{subst}
use mathlib.Core.List.{reverse, append_assoc, append-nil}
use crossync.Vec.Memory.{InnerVec, reclaim_retired}
use crossync.Vec.Rep.{Holds}
use crossync.Vec.Push.{push_lem}
use crossync.Vec.Pop.{pop_raw-Holds, pop_raw-none}
use crossync.Vec.Reclaim.{reclaim_retired-Holds}
use crossync.Vec.Calls.{
  len, pop_internal, push_batch, gather, pop_batch, drain, pop_all, pop_every, as_vec,
  reverse_inner, push_others, remove_inner,
}
use crossync.Vec.Queue.{len_lem, pop-Holds, pop-none}

module _ {T : Type 0} where
  -- With room for the pushes below 2 ^ 62, `push_batch` appends its values in their order.
  pub push_batch-Holds :
      (v : InnerVec T) (xs ys : List T) (n : ℕ)
      → Holds v xs n
      → n + length ys ≤ 2 ^ 62
      → (w : InnerVec T) × (push_batch v ys ≡ some w) × Holds w (xs ++ ys) (n + length ys)
  unfolding push_batch
  push_batch-Holds v xs [] n h room =
      (v, refl, rw (append-nil xs) (subst (Holds v xs) (omega arith) h))
  push_batch-Holds v xs (y ∷ ys) n h room =
      let (w, e, h') = push_lem v xs n y h (omega (arith, room)) in
      let (w', rest, h'') = push_batch-Holds w (xs ++ y ∷ []) ys (n + 1) h' (omega (arith, room)) in
      (
        w',
        ap (λ o. o >>= λ w. push_batch w ys) e ∙ rest,
        subst (λ l. Holds w' l (n + suc (length ys))) (append_assoc xs (y ∷ []) ys)
            (subst (Holds w' (xs ++ y ∷ [] ++ ys)) (omega arith) h''),
      )

  -- `pop_batch` returns the first `count` values, all when there are fewer, in their order.
  pub pop_batch-Holds :
      (count : ℕ) (v : InnerVec T) (xs : List T) (n : ℕ)
      → Holds v xs n
      → (w : InnerVec T) × (pop_batch count v ≡ some (take count xs, w)) × Holds w (drop count xs) n
  unfolding pop_batch
  pop_batch-Holds zero v xs n h = (v, refl, h)
  pop_batch-Holds (suc count) v [] n h =
      (v, ap (λ o. o >>= gather (pop_batch count)) (pop-none v n h), h)
  pop_batch-Holds (suc count) v (x ∷ xs) n h =
      let (w, e, h') = pop-Holds v x xs n h in
      let (w', rest, h'') = pop_batch-Holds count w xs n h' in
      (
        w',
        ap (λ o. o >>= gather (pop_batch count)) e
            ∙ ap (λ o. o >>= λ r. let (out, w') = r in some (x ∷ out, w')) rest,
        h'',
      )

  -- `drain` returns every value, and leaves none.
  pub drain-Holds :
      (v : InnerVec T) (xs : List T) (n : ℕ)
      → Holds v xs n
      → (w : InnerVec T) × (drain v ≡ some (xs, w)) × Holds w [] n
  unfolding drain
  drain-Holds v xs n h =
      let (w, e, h') = pop_batch-Holds (length xs) v xs n h in
      (
        w,
        ap (λ m. pop_batch m v) (len_lem v xs n h) ∙ e ∙ ap (λ l. some (l, w)) (take-length xs),
        subst (λ l. Holds w l n) (drop-length xs) h',
      )

  pop_internal-Holds :
      (v : InnerVec T) (x : T) (xs : List T) (n : ℕ)
      → Holds v (x ∷ xs) n
      → (w : InnerVec T) × (pop_internal v ≡ some (some x, w)) × Holds w xs n
  pop_internal-Holds v x xs n h =
      let (reclaim, w, e, h') = pop_raw-Holds v x xs n h in
      (w, ap (λ o. o >>= λ r. let (result, reclaim, w) = r in some (result, w)) e, h')

  -- The loop takes every value, with more fuel than values.
  pop_all-Holds :
      (fuel : ℕ) (v : InnerVec T) (xs : List T) (n : ℕ)
      → Holds v xs n
      → length xs < fuel
      → (w : InnerVec T) × (pop_all fuel v ≡ some (xs, w)) × Holds w [] n
  unfolding pop_all
  pop_all-Holds zero v xs n h lt = absurd (omega (arith, lt))
  pop_all-Holds (suc fuel) v [] n h lt = (
    v,
    ap
        (λ o.
          (o >>= λ r. let (result, reclaim, w) = r in some (result, w)) >>= gather (pop_all fuel))
        (pop_raw-none v n h),
    h,
  )
  pop_all-Holds (suc fuel) v (x ∷ xs) n h lt =
      let (w, e, h') = pop_internal-Holds v x xs n h in
      let (w', rest, h'') = pop_all-Holds fuel w xs n h' (omega (arith, lt)) in
      (
        w',
        ap (λ o. o >>= gather (pop_all fuel)) e
            ∙ ap (λ o. o >>= λ r. let (out, w') = r in some (x ∷ out, w')) rest,
        h'',
      )

  pub pop_every-Holds :
      (v : InnerVec T) (xs : List T) (n : ℕ)
      → Holds v xs n
      → (w : InnerVec T) × (pop_every v ≡ some (xs, w)) × Holds w [] n
  pop_every-Holds v xs n h = pop_all-Holds (len v + 1) v xs n h (omega (arith, len_lem v xs n h))

  -- `as_vec` returns the values in their order, leaves none, and retires no block any longer.
  pub as_vec-Holds :
      (v : InnerVec T) (xs : List T) (n : ℕ)
      → Holds v xs n
      → (w : InnerVec T) × (as_vec v ≡ some (xs, w)) × (w.retired_count ≡ 0) × Holds w [] n
  unfolding as_vec
  as_vec-Holds v xs n h =
      let (w, e, h') = pop_every-Holds v xs n h in
      let (w', e', count, h'') = reclaim_retired-Holds w [] n h' in
      (
        w',
        ap (λ o. o >>= λ r. let (out, w) = r in reclaim_retired w >>= λ w'. some (out, w')) e
            ∙ ap (λ o. o >>= λ w'. some (xs, w')) e',
        count,
        h'',
      )

  -- With room for the pushes below 2 ^ 62, `reverse` turns the values around.
  pub reverse_inner-Holds :
      (v : InnerVec T) (xs : List T) (n : ℕ)
      → Holds v xs n
      → n + length xs ≤ 2 ^ 62
      → (w : InnerVec T) × (reverse_inner v ≡ some w) × Holds w (reverse xs) (n + length xs)
  unfolding reverse_inner
  reverse_inner-Holds v xs n h room =
      let (w, e, h') = pop_every-Holds v xs n h in
      let (w', e', h'') = push_batch-Holds w [] (reverse xs) n h' (rw (length-reverse xs) room) in
      (
        w',
        ap (λ o. o >>= λ r. let (elements, w) = r in push_batch w (reverse elements)) e ∙ e',
        subst (λ m. Holds w' (reverse xs) (n + m)) (length-reverse xs) h'',
      )

  -- `remove` of an index out of range returns `None` and changes nothing.
  pub remove_inner-none :
      (v : InnerVec T) (xs : List T) (n i : ℕ)
      → Holds v xs n
      → length xs ≤ i
      → remove_inner v i ≡ some (none, v)
  unfolding remove_inner
  remove_inner-none v xs n i h le =
      let out : len v ≤ i = omega (arith, len_lem v xs n h, le) in ground (arith, out)

  -- `remove` of an index in range returns the value there, and the others stay in their order, with
  -- room for their pushes below 2 ^ 62.
  pub remove_inner-Holds :
      (v : InnerVec T) (xs : List T) (n i : ℕ)
      → Holds v xs n
      → i < length xs
      → n + length xs ≤ 2 ^ 62
      → (w : InnerVec T) × (remove_inner v i ≡ some (get_elem? xs i, w))
        × Holds w (erase_idx xs i) (n + length (erase_idx xs i))
  unfolding remove_inner
  remove_inner-Holds v xs n i h lt room =
      let within : i < len v = omega (arith, len_lem v xs n h, lt) in
      let rest : List T = erase_idx xs i in
      let (w, e, h') = pop_every-Holds v xs n h in
      let (w', e', h'') =
        push_batch-Holds w [] rest n h' (omega (arith, length-erase_idx xs i, room)) in
      (
        w',
        refills v i within
            ∙ ap (λ o. o >>= push_others i) e
            ∙ others w xs i lt
            ∙ ap (λ o. o >>= λ full. some (get_elem? xs i, full)) e',
        h'',
      )
    where
      refills :
          (v : InnerVec T) (i : ℕ) → i < len v → remove_inner v i ≡ (pop_every v >>= push_others i)
      refills v i lt = ground (arith, lt)

      others :
          (w : InnerVec T) (xs : List T) (i : ℕ)
          → i < length xs
          → push_others i (xs, w)
            ≡ (push_batch w (erase_idx xs i) >>= λ full. some (get_elem? xs i, full))
      others w xs i lt = ground (arith, lt)
