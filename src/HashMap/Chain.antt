-- ===== src/HashMap/Chain.antt =====
-- atomic/hashmap.rs: one bucket. A chain of entries is the list of them from `head` along `next`;
-- every walk of it runs under the bucket's mutex. `Walks` has what the walks do to lookups, and
-- `Shape` what they keep of the chain.
pub mod Walks
pub mod Shape
pub mod Hashes
use mathlib.Core.Option
use crossync.Prelude.{
  ℕ, suc, ◌+◌, ◌%◌, ◌≤◌, ◌≡◌, refl, sym, ap, ◌∙◌, ◌⊎◌, inl, inr, Bool, true, false, ◌&&◌, Option,
  none, some, List, [], ◌∷◌, arith, ◌==◌, if◌then◌else◌, length, Option-cases, Bool-cases,
}
use crossync.HashMap.Key.{HashKey, same_congr, same_congr_left}

pub record Entry {ℓ} (K V : Type ℓ) : Type ℓ where
  pub key : K
  pub value : V
  pub hash : ℕ

abbrev pub Chain {ℓ} : Type ℓ → Type ℓ → Type ℓ
Chain K V = List (Entry K V)

module _ {ℓ} {K V : Type ℓ} ⦃hk : HashKey K⦄ where
  -- `(*cur).hash == hash && (*cur).key == key`
  abbrev pub hit : Entry K V → ℕ → K → Bool
  hit e h k = e.hash == h && hk.same e.key k

  -- The walk of `get`.
  pub find : ℕ → K → Chain K V → Option V
  find h k [] = none
  find h k (e ∷ c) = if hit e h k then some e.value else find h k c

  -- The walk of `contains`.
  pub contains : ℕ → K → Chain K V → Bool
  contains h k [] = false
  contains h k (e ∷ c) = if hit e h k then true else contains h k c

  -- The walk of `get_mut` with a callback: the value that is found is changed in place.
  pub modify : ℕ → K → (V → V) → Chain K V → Option (Chain K V)
  modify h k f [] = none
  modify h k f (e ∷ c) =
      if hit e h k
      then some (record e { value = f e.value } ∷ c)
      else Option.map (λ c'. e ∷ c') (modify h k f c)

  -- The walk of `insert`: the old value, and the chain with the new one in its place.
  pub replace : ℕ → K → V → Chain K V → Option (V × Chain K V)
  replace h k v [] = none
  replace h k v (e ∷ c) =
      if hit e h k
      then some (e.value, record e { value = v } ∷ c)
      else Option.map (λ r. (r.0, e ∷ r.1)) (replace h k v c)

  -- The walk of `remove`: the value, and the chain without its entry.
  pub unlink : ℕ → K → Chain K V → Option (V × Chain K V)
  unlink h k [] = none
  unlink h k (e ∷ c) =
      if hit e h k then some (e.value, c) else Option.map (λ r. (r.0, e ∷ r.1)) (unlink h k c)

  -- No two entries of a chain have the same key.
  abbrev pub Unique : Chain K V → Type ℓ
  Unique [] = Unit
  Unique (e ∷ c) = (find e.hash e.key c ≡ none) × Unique c

  -- Every entry keeps the hash of its key, and stands in the bucket of that hash.
  abbrev pub Placed : ℕ → ℕ → Chain K V → Type ℓ
  Placed cap i [] = Unit
  Placed cap i (e ∷ c) = (e.hash ≡ hk.hash e.key) × (e.hash % cap ≡ i) × Placed cap i c
