-- ===== src/Vec/Refinement.antt =====
-- atomic/vec.rs: sequences of calls of an `AtomicVec`, against the same calls of a list.
use crossync.Prelude.{
  ℕ, ◌+◌, ◌≤◌, ◌^◌, ◌≡◌, ◌≢◌, ◌⊎◌, inl, inr, refl, sym, ap, ◌∙◌, true, false, none, some, List, [],
  ◌∷◌, ◌++◌, arith, lt_or_ge, length, get_elem?, get_elem?-eq-none, le_of_get_elem?-none,
  erase_idx-ge, length-erase_idx, Option-cases, set, take, drop, erase_idx, ◌>>=◌,
}
use native.Mathlib.Decide.{ℕ_discrete}
use mathlib.Core.List.{reverse}
use mathlib.Core.Path.{subst}
use crossync.Vec.Memory.{InnerVec}
use crossync.Vec.Ends.{new_vec}
use crossync.Vec.Rep.{Holds}
use crossync.Vec.Access.{swap, swap_inner}
use crossync.Vec.Push.{push_lem}
use crossync.Vec.Queue.{new_vec-Holds, len_lem, pop-Holds, pop-none}
use crossync.Vec.Batch.{
  pop_batch-Holds, drain-Holds, as_vec-Holds, reverse_inner-Holds, remove_inner-Holds,
  remove_inner-none,
}
use crossync.Vec.At.{get_inner_lem}
use crossync.Vec.Swap.{swap_inner-Holds, swap_inner-false}
use crossync.Vec.Reset.{reset_with-Holds}
use crossync.Vec.Create.{with_capacity, init_with, from_iter, with_capacity-Holds, push_new-Holds}
use crossync.Vec.Api.{
  VecStart, sized, filled, collected, start_vec, start_list, VecCall, push, pop_one, pop_some,
  drain_all, count, get_at, swap_at, remove_at, reverse_all, to_vec, reset_to, VecResult, done,
  value, values, truth, size, call_vec, call_vecs, swap_found, call_list, call_lists, cost, costs,
}

module _ {T : Type 0} where
  -- What is to be shown of one call.
  record Refines (c : VecCall T) (v : InnerVec T) (xs : List T) (n : ℕ) : Type 0 where
    pub after : InnerVec T
    pub pushed : ℕ
    pub returns : call_vec c v ≡ some ((call_list c xs).0, after)
    pub within : pushed ≤ n + cost c xs
    pub holds : Holds after (call_list c xs).1 pushed

  module _ (v : InnerVec T) (n : ℕ) where
    Refines-by :
        (c : VecCall T) (xs ys : List T) (r : VecResult T) (w : InnerVec T) (p : ℕ)
        → call_list c xs ≡ (r, ys)
        → call_vec c v ≡ some (r, w)
        → p ≤ n + cost c xs
        → Holds w ys p
        → Refines c v xs n
    Refines-by c xs ys r w p listed returns within holds = record {
      after = w;
      pushed = p;
      returns = returns ∙ ap (λ s. some (s.0, w)) (sym listed);
      within = within;
      holds = subst (λ s. Holds w s.1 p) (sym listed) holds;
    }

    -- `swap` outside of the indices.
    swap_outside :
        (xs : List T) (i j : ℕ)
        → Holds v xs n
        → i ≢ j
        → (length xs ≤ i) ⊎ (length xs ≤ j)
        → swap_found xs i j (get_elem? xs i) (get_elem? xs j) ≡ (truth false, xs)
        → Refines (swap_at i j) v xs n
    swap_outside xs i j h ne out listed =
        Refines-by (swap_at i j) xs xs (truth false) v n (ground (arith, ne, listed))
          (ap (λ s. some (truth s.0, s.1))
            (let go : swap v i j ≡ swap_inner v i j = ground (arith, ne) in
              go ∙ swap_inner-false v xs n i j h out))
          (omega arith) h

    swap-Refines : (xs : List T) (i j : ℕ) → Holds v xs n → Refines (swap_at i j) v xs n
    swap-Refines xs i j h = elim (ℕ_discrete i j) [
      | yes e ↦
          Refines-by (swap_at i j) xs xs (truth true) v n (ground (arith, e))
            (ap (λ s. some (truth s.0, s.1))
              (let go : swap v i j ≡ (true, v) = ground (arith, e) in go))
            (omega arith) h
      | no ne ↦ elim (Option-cases (get_elem? xs i)) [
        | inl e ↦
            swap_outside xs i j h ne (inl (le_of_get_elem?-none xs i e))
              (ap (λ o. swap_found xs i j o (get_elem? xs j)) e)
        | inr (x, e) ↦ elim (Option-cases (get_elem? xs j)) [
          | inl f ↦
              swap_outside xs i j h ne (inr (le_of_get_elem?-none xs j f)) (
                ap (λ o. swap_found xs i j o (get_elem? xs j)) e
                ∙ ap (swap_found xs i j (some x)) f)
          | inr (y, f) ↦
              let (w, returns, held) = swap_inner-Holds v xs n i j x y h e f in
              Refines-by (swap_at i j) xs (set (set xs i y) j x) (truth true) w n
                (ground (arith, ne, e, f))
                (ap (λ s. some (truth s.0, s.1))
                  (let go : swap v i j ≡ swap_inner v i j = ground (arith, ne) in go ∙ returns))
                (omega arith) held
        ]
      ]
    ]

    remove-Refines :
        (xs : List T) (i : ℕ) → Holds v xs n → n + length xs ≤ 2 ^ 62 → Refines (remove_at i) v xs n
    remove-Refines xs i h room = elim (lt_or_ge i (length xs)) [
      | inl lt ↦
          let (w, e, held) = remove_inner-Holds v xs n i h lt room in
          Refines-by (remove_at i) xs (erase_idx xs i) (value (get_elem? xs i)) w _ refl
            (ap (λ o. o >>= λ r. some (value r.0, r.1)) e) (omega (arith, length-erase_idx xs i))
            held
      | inr ge ↦
          Refines-by (remove_at i) xs xs (value none) v n
            (ap (λ o. (value o, erase_idx xs i)) (get_elem?-eq-none xs i ge)
              ∙ ap (λ l. (value none, l)) (erase_idx-ge xs i ge))
            (ap (λ o. o >>= λ r. some (value r.0, r.1)) (remove_inner-none v xs n i h ge))
            (omega arith) h
    ]

    pop-Refines : (xs : List T) → Holds v xs n → Refines pop_one v xs n
    pop-Refines [] h = record {
      after = v;
      pushed = n;
      returns = ap (λ o. o >>= λ r. some (value r.0, r.1)) (pop-none v n h);
      within = omega arith;
      holds = h;
    }
    pop-Refines (x ∷ xs) h =
        let (w, e, h') = pop-Holds v x xs n h in
        record {
          after = w;
          pushed = n;
          returns = ap (λ o. o >>= λ r. some (value r.0, r.1)) e;
          within = omega arith;
          holds = h';
        }

    call-Refines :
        (c : VecCall T) (xs : List T) → Holds v xs n → n + cost c xs ≤ 2 ^ 62 → Refines c v xs n
    call-Refines (push x) xs h room =
        let (w, e, held) = push_lem v xs n x h (omega (arith, room)) in
        Refines-by (push x) xs (xs ++ x ∷ []) done w (n + 1) refl
          (ap (λ o. o >>= λ w. some (done, w)) e) (omega arith) held
    call-Refines pop_one xs h room = pop-Refines xs h
    call-Refines (pop_some k) xs h room =
        let (w, e, held) = pop_batch-Holds k v xs n h in
        Refines-by (pop_some k) xs (drop k xs) (values (take k xs)) w n refl
          (ap (λ o. o >>= λ r. some (values r.0, r.1)) e) (omega arith) held
    call-Refines drain_all xs h room =
        let (w, e, held) = drain-Holds v xs n h in
        Refines-by drain_all xs [] (values xs) w n refl
          (ap (λ o. o >>= λ r. some (values r.0, r.1)) e) (omega arith) held
    call-Refines count xs h room =
        Refines-by count xs xs (size (length xs)) v n refl
          (ap (λ m. some (size m, v)) (len_lem v xs n h)) (omega arith) h
    call-Refines (get_at i) xs h room =
        Refines-by (get_at i) xs xs (value (get_elem? xs i)) v n refl
          (ap (λ o. some (value o, v)) (get_inner_lem v xs n h i)) (omega arith) h
    call-Refines (swap_at i j) xs h room = swap-Refines xs i j h
    call-Refines (remove_at i) xs h room = remove-Refines xs i h room
    call-Refines reverse_all xs h room =
        let (w, e, held) = reverse_inner-Holds v xs n h room in
        Refines-by reverse_all xs (reverse xs) done w (n + length xs) refl
          (ap (λ o. o >>= λ w. some (done, w)) e) (omega arith) held
    call-Refines to_vec xs h room =
        let (w, e, none_retired, held) = as_vec-Holds v xs n h in
        Refines-by to_vec xs [] (values xs) w n refl (ap (λ o. o >>= λ r. some (values r.0, r.1)) e)
          (omega arith) held
    call-Refines (reset_to ys) xs h room =
        let (w, e, held) = reset_with-Holds v xs ys n h (omega (arith, room)) in
        Refines-by (reset_to ys) xs ys (size (length ys)) w (length ys) refl
          (ap (λ o. o >>= λ r. some (size r.0, r.1)) e) (omega arith) held

  calls_refine :
      (cs : List (VecCall T)) (v : InnerVec T) (xs : List T) (n : ℕ)
      → Holds v xs n
      → n + costs cs xs ≤ 2 ^ 62
      → (w : InnerVec T) × (m : ℕ) × (call_vecs cs v ≡ some ((call_lists cs xs).0, w))
        × Holds w (call_lists cs xs).1 m
  calls_refine [] v xs n h room = (v, n, refl, h)
  calls_refine (c ∷ cs) v xs n h room =
      let one = call-Refines v n c xs h (omega arith) in
      let (w, m, e, held) =
        calls_refine cs one.after (call_list c xs).1 one.pushed one.holds
          (omega (arith, one.within)) in
      (
        w,
        m,
        ap (λ o. o >>= λ r. call_vecs cs r.1 >>= λ s. some (r.0 ∷ s.0, s.1)) one.returns
            ∙ ap (λ o. o >>= λ s. some ((call_list c xs).0 ∷ s.0, s.1)) e,
        held,
      )

  start_refines :
      (s : VecStart T)
      → length (start_list s) ≤ 2 ^ 62
      → (v : InnerVec T) × (start_vec s ≡ some v) × Holds v (start_list s) (length (start_list s))
  unfolding init_with from_iter
  start_refines (sized cap) room = (with_capacity cap, refl, with_capacity-Holds cap)
  start_refines (filled xs) room =
      push_new-Holds (with_capacity (length xs)) xs (with_capacity-Holds (length xs)) room
  start_refines (collected xs) room = push_new-Holds new_vec xs new_vec-Holds room

  -- Any sequence of calls on a vector that new, with_capacity, init_with or from_iter made, by a thread
  -- that is alone and with at most 2 ^ 62 pushes in all, returns, and what a list of the same first
  -- values returns for the same calls; the vector then stands for the list's values.
  pub call_vecs_refines :
      (s : VecStart T) (cs : List (VecCall T))
      → length (start_list s) + costs cs (start_list s) ≤ 2 ^ 62
      → (w : InnerVec T) × (n : ℕ) × ((start_vec s >>= call_vecs cs)
          ≡ some ((call_lists cs (start_list s)).0, w))
        × Holds w (call_lists cs (start_list s)).1 n
  call_vecs_refines s cs room =
      let (v, made, h) = start_refines s (omega (arith, room)) in
      let (w, n, e, held) = calls_refine cs v (start_list s) (length (start_list s)) h room in
      (w, n, ap (λ o. o >>= call_vecs cs) made ∙ e, held)
