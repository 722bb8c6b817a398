-- ===== src/Atomic/Laws.antt =====
-- atomic/atomic.rs: how the methods relate to each other.
use crossync.Prelude.{◌≡◌, refl, arith, none, some, if◌then◌else◌, List, [], ◌∷◌, ◌++◌}
use crossync.Atomic.Ops.{
  Traits, compare_exchange, compare_exchange_weak, compare_and_swap, fetch_update,
}
use crossync.Atomic.Kinds.{pop_last, push, pop, extend}

module _ {T : Type 0} ⦃traits : Traits T⦄ where
  -- `compare_exchange` and its weak form are the `fetch_update` whose closure gives the new value
  -- exactly for the expected one, and `compare_and_swap` is the same change, which always returns
  -- the value that it found.
  pub compare_exchange-fetch_update :
      (current new value : T)
      → (compare_exchange current new value
          ≡ fetch_update (λ old. if traits.equal old current then some new else none) value)
        × (compare_exchange_weak current new value ≡ compare_exchange current new value)
        × (compare_and_swap current new value ≡ (value, (compare_exchange current new value).1))
  compare_exchange-fetch_update current new value = ground arith

module _ {T : Type 0} where
  pop_last-snoc : (vec : List T) (value : T) → pop_last (vec ++ value ∷ []) ≡ (some value, vec)
  pop_last-snoc [] value = refl
  pop_last-snoc (x ∷ []) value = refl
  pop_last-snoc (x ∷ y ∷ vec) value = ground (arith, pop_last-snoc (y ∷ vec) value)

  -- On an `Atomic<Vec>`, `pop` returns what the last `push` has put there and restores the vector, and
  -- pushing one value is extending by it.
  pub vec_pop-push :
      (vec : List T) (value : T)
      → (pop (push value vec).1 ≡ (some value, vec)) × (push value vec ≡ extend (value ∷ []) vec)
  vec_pop-push vec value = (pop_last-snoc vec value, refl)
