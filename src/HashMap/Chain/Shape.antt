-- ===== src/HashMap/Chain/Shape.antt =====
-- atomic/hashmap.rs: the walks keep a chain free of duplicates and its entries in their bucket.
use mathlib.Core.Option
use crossync.Prelude.{ℕ, ◌%◌, ◌≡◌, refl, Option, none, some, [], ◌∷◌, arith, if◌then◌else◌}
use crossync.HashMap.Key.{HashKey}
use crossync.HashMap.Chain.{Entry, Chain, hit, find, modify, replace, unlink, Unique, Placed}
use crossync.HashMap.Chain.Walks.{
  Replaced, replace-Replaced, Modified, modify-Modified, Unlinked, unlink-Unlinked,
}

module _ {ℓ} {K V : Type ℓ} ⦃hk : HashKey K⦄ (cap i : ℕ) where
  abbrev pub Shaped : Chain K V → Type ℓ
  Shaped c = Unique c × Placed cap i c

  abbrev pub Kept : Option (V × Chain K V) → Type ℓ
  Kept none = Unit
  Kept (some (_, c')) = Shaped c'

  abbrev pub KeptChain : Option (Chain K V) → Type ℓ
  KeptChain none = Unit
  KeptChain (some c') = Shaped c'

  replace_step :
      (h : ℕ) (k : K) (v : V) (e : Entry K V) (c : Chain K V)
      → Shaped (e ∷ c)
      → (r : Option (V × Chain K V)) → Replaced h k v c e.hash e.key r
      → Kept r
      → Kept (
          if hit e h k
          then some (e.value, record e { value = v } ∷ c)
          else Option.map (λ r. (r.0, e ∷ r.1)) r)
  replace_step h k v e c s none a b = ground (arith, s, a)
  replace_step h k v e c s (some (old, c')) a b = ground (arith, s, a, b, hk.same_symm k e.key)

  pub replace-Shaped : (h : ℕ) (k : K) (v : V) (c : Chain K V) → Shaped c → Kept (replace h k v c)
  unfolding replace
  replace-Shaped h k v [] s = tt
  replace-Shaped h k v (e ∷ c) s =
      replace_step h k v e c s (replace h k v c) (replace-Replaced h k v c e.hash e.key)
        (replace-Shaped h k v c (s.0.1, s.1.2))

  modify_step :
      (h : ℕ) (k : K) (f : V → V) (e : Entry K V) (c : Chain K V)
      → Shaped (e ∷ c)
      → (r : Option (Chain K V)) → Modified h k f c e.hash e.key r
      → KeptChain r
      → KeptChain (
          if hit e h k
          then some (record e { value = f e.value } ∷ c)
          else Option.map (λ c'. e ∷ c') r)
  modify_step h k f e c s none a b = ground (arith, s, a)
  modify_step h k f e c s (some c') a b = ground (arith, s, a, b, hk.same_symm k e.key)

  pub modify-Shaped :
      (h : ℕ) (k : K) (f : V → V) (c : Chain K V) → Shaped c → KeptChain (modify h k f c)
  unfolding modify
  modify-Shaped h k f [] s = tt
  modify-Shaped h k f (e ∷ c) s =
      modify_step h k f e c s (modify h k f c) (modify-Modified h k f c e.hash e.key)
        (modify-Shaped h k f c (s.0.1, s.1.2))

  unlink_step :
      (h : ℕ) (k : K) (e : Entry K V) (c : Chain K V)
      → Shaped (e ∷ c)
      → (r : Option (V × Chain K V)) → Unlinked h k c e.hash e.key r
      → Kept r
      → Kept (if hit e h k then some (e.value, c) else Option.map (λ r. (r.0, e ∷ r.1)) r)
  unlink_step h k e c s none a b = ground (arith, s, a)
  unlink_step h k e c s (some (old, c')) a b = ground (arith, s, a, b)

  pub unlink-Shaped : (h : ℕ) (k : K) (c : Chain K V) → Shaped c → Kept (unlink h k c)
  unfolding unlink
  unlink-Shaped h k [] s = tt
  unlink-Shaped h k (e ∷ c) s =
      unlink_step h k e c s (unlink h k c) (unlink-Unlinked h k c e.hash e.key s.0.1)
        (unlink-Shaped h k c (s.0.1, s.1.2))

  -- A new entry goes to the head of a chain that has none of its key.
  pub cons-Shaped :
      (k : K) (v : V) (c : Chain K V)
      → find (hk.hash k) k c ≡ none
      → hk.hash k % cap ≡ i
      → Shaped c
      → Shaped (record { key = k; value = v; hash = hk.hash k } ∷ c)
  cons-Shaped k v c fresh place s = ((fresh, s.0), (refl, place, s.1))
