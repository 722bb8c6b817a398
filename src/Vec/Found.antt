-- ===== src/Vec/Found.antt =====
-- atomic/vec.rs: what `index_of`, `find`, `fold` and `reduce` say of the list of values.
use crossync.Prelude.{
  ℕ, suc, ◌+◌, ◌/◌, ◌≤◌, ◌<◌, ◌≡◌, inl, inr, refl, ap, ◌∙◌, Bool, true, false, Option, none, some,
  List, [], ◌∷◌, arith, if◌then◌else◌, find?, find_idx?, foldl, ◌>>=◌,
}
use crossync.Vec.Memory.{InnerVec}
use crossync.Vec.Rep.{Holds}
use crossync.Vec.Scan.{
  go_on, scan, returned, finished, index_body, index_of_inner, find_body, find_inner, fold_body,
  fold_inner, reduce_step, reduce_inner,
}
use crossync.Vec.Visits.{visits, scan_lem}

module _ {T : Type 0} where
  visits-index :
      (eq : T → T → Bool) (value : T) (xs : List T) (k : ℕ)
      → returned (visits (index_body eq value) k xs)
        ≡ (find_idx? (λ v. eq v value) xs >>= λ i. some (k + i))
  visits-index eq value [] k = refl
  visits-index eq value (x ∷ xs) k =
      elim (eq x value)
        as (λ b.
          returned
            (go_on (λ a. visits (index_body eq value) a xs) (if b then inl k else inr (k + 1)))
          ≡ ((if b then some 0 else (find_idx? (λ v. eq v value) xs >>= λ i. some (suc i))) >>= λ i.
              some (k + i))) [
                | true ↦ ap some (let e : k ≡ k + 0 = omega arith in e)
                | false ↦ visits-index eq value xs (k + 1) ∙ shift (find_idx? (λ v. eq v value) xs)
              ]
    where
      shift :
          (o : Option ℕ)
          → (o >>= λ i. some (k + 1 + i)) ≡ (o >>= (λ i. some (suc i)) >>= λ i. some (k + i))
      shift none = refl
      shift (some i) = ap some (let e : k + 1 + i ≡ k + suc i = omega arith in e)

  visits-find : (p : T → Bool) (xs : List T) → returned (visits (find_body p) tt xs) ≡ find? p xs
  visits-find p [] = refl
  visits-find p (x ∷ xs) =
      elim (p x)
        as (λ b.
          returned (go_on (λ a. visits (find_body p) a xs) (if b then inl x else inr tt))
          ≡ (if b then some x else find? p xs)) [ true ↦ refl | false ↦ visits-find p xs ]

  visits-fold :
      {B : Type 0} (f : B → T → B) (xs : List T) (acc : B)
      → visits (fold_body f) acc xs ≡ inr (foldl f acc xs)
  visits-fold f [] acc = refl
  visits-fold f (x ∷ xs) acc = visits-fold f xs (f acc x)

  module _ (v : InnerVec T) (xs : List T) (n : ℕ) (h : Holds v xs n) where
    index_of_inner_lem :
        (eq : T → T → Bool) (value : T)
        → index_of_inner eq v value ≡ some (find_idx? (λ x. eq x value) xs)
    unfolding index_of_inner
    index_of_inner_lem eq value =
        ap (λ o. o >>= λ r. some (returned r)) (scan_lem (index_body eq value) v xs n 0 h)
        ∙ ap some (visits-index eq value xs 0 ∙ zero_more (find_idx? (λ x. eq x value) xs))
      where
        zero_more : (o : Option ℕ) → (o >>= λ i. some (0 + i)) ≡ o
        zero_more none = refl
        zero_more (some i) = ap some (let e : 0 + i ≡ i = omega arith in e)

    find_inner_lem : (p : T → Bool) → find_inner p v ≡ some (find? p xs)
    unfolding find_inner
    find_inner_lem p =
        ap (λ o. o >>= λ r. some (returned r)) (scan_lem (find_body p) v xs n tt h)
        ∙ ap some (visits-find p xs)

    fold_inner_lem :
        {B : Type 0} (init : B) (f : B → T → B) → fold_inner v init f ≡ some (foldl f init xs)
    unfolding fold_inner
    fold_inner_lem init f =
        ap (λ o. o >>= λ r. some (finished r)) (scan_lem (fold_body f) v xs n init h)
        ∙ ap (λ r. some (finished r)) (visits-fold f xs init)

  -- `reduce` is `None` for no values, and else combines the first with the others from the left.
  abbrev pub reduced : (T → T → T) → List T → Option T
  reduced f [] = none
  reduced f (x ∷ xs) = some (foldl f x xs)

  foldl-reduce :
      (f : T → T → T) (x : T) (xs : List T)
      → foldl (reduce_step f) (some x) xs ≡ some (foldl f x xs)
  foldl-reduce f x [] = refl
  foldl-reduce f x (y ∷ xs) = foldl-reduce f (f x y) xs

  reduce_inner_lem :
      (v : InnerVec T) (xs : List T) (n : ℕ) (f : T → T → T)
      → Holds v xs n
      → reduce_inner v f ≡ some (reduced f xs)
  unfolding reduce_inner
  reduce_inner_lem v [] n f h =
      let none_left : v.tail_index / 2 ≤ v.head_index / 2 =
        omega (arith, h.rep.head_at, h.rep.tail_at) in
      ground (arith, none_left)
  reduce_inner_lem v (x ∷ xs) n f h =
      let more : v.head_index / 2 < v.tail_index / 2 =
        omega (arith, h.rep.head_at, h.rep.tail_at) in
      within more
      ∙ ap (λ o. o >>= λ r. some (finished r))
          (scan_lem (fold_body (reduce_step f)) v (x ∷ xs) n none h)
      ∙ ap (λ r. some (finished r)) (visits-fold (reduce_step f) (x ∷ xs) none)
      ∙ ap some (foldl-reduce f x xs)
    where
      within :
          v.head_index / 2 < v.tail_index / 2
          → reduce_inner v f ≡ (scan (fold_body (reduce_step f)) v none >>= λ r. some (finished r))
      within lt = ground (arith, lt)

  -- The loops over all slots, in a vector that stands for a list. `index_of` returns the first index
  -- with an equal value, and `find` the first value for which the predicate holds; `fold` combines the
  -- values from the left, and `reduce` the first one with the others from the left, or is `None` for no
  -- values. Each of them returns.
  pub scans_lem :
      {B : Type 0} (v : InnerVec T) (xs : List T) (n : ℕ)
      → Holds v xs n
      → (eq : T → T → Bool) (value : T) (p : T → Bool) (init : B) (f : B → T → B) (g : T → T → T)
      → (index_of_inner eq v value ≡ some (find_idx? (λ x. eq x value) xs))
        × (find_inner p v ≡ some (find? p xs))
        × (fold_inner v init f ≡ some (foldl f init xs))
        × (reduce_inner v g ≡ some (reduced g xs))
  scans_lem v xs n h eq value p init f g = (
    index_of_inner_lem v xs n h eq value,
    find_inner_lem v xs n h p,
    fold_inner_lem v xs n h init f,
    reduce_inner_lem v xs n g h,
  )
