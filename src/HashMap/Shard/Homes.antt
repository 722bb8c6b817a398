-- ===== src/HashMap/Shard/Homes.antt =====
-- atomic/hashmap.rs: the operations of a shard bring no new hash into it but that of an inserted key.
use mathlib.Core.Option.{some-injective}
use mathlib.Core.Path.{subst}
use crossync.Prelude.{
  ℕ, zero, suc, ◌%◌, ◌≡◌, inl, inr, Bool, Option, none, some, List, [], ◌∷◌, arith, get_elem?,
  get_elem?-set_cases, length,
}
use crossync.HashMap.Key.{HashKey}
use crossync.HashMap.Chain.{Chain, modify, replace, unlink}
use crossync.HashMap.Chain.Hashes.{
  Hashes, HashesWith, HashesOf, replace-Hashes, unlink-Hashes, modify-Hashes,
}
use crossync.HashMap.Shard.{
  Shard, up, down, put_slot, place, insert, take_out, remove, change, with_mut, detach_slots,
  detach, IsValid,
}
use crossync.HashMap.Shard.Laws.{get_slot-lem}

module _ {ℓ} {K V : Type ℓ} ⦃hk : HashKey K⦄ (P : ℕ → Type 0) where
  abbrev pub Homes : Shard K V → Type ℓ
  Homes s = (j : ℕ) (c : Chain K V) → get_elem? s.slots j ≡ some c → Hashes P c

  put_slot-Homes :
      (s : Shard K V) (i : ℕ) (c c' : Chain K V) (n : ℕ)
      → get_elem? s.slots i ≡ some c
      → Homes s
      → Hashes P c'
      → Homes (put_slot s i c' n)
  put_slot-Homes s i c c' n e h a j d q = elim (get_elem?-set_cases s.slots i j c c' d e q) [
    | inl (_, same) ↦ subst (Hashes P) same a
    | inr (_, was) ↦ h j d was
  ]

  module _ (s : Shard K V) (k : K) (ok : IsValid s) (h : Homes s) where
    pub insert-Homes :
        (v : V)
        → P (hk.hash k)
        → (out : Option V × Shard K V) × (insert s k v (hk.hash k) ≡ some out) × Homes out.1
    unfolding insert place
    insert-Homes v p =
        let (c, found, e) = get_slot-lem (hk.hash k) ok in
        let i = hk.hash k % s.capacity in
        let r = replace (hk.hash k) k v c in
        (
          place s i c k v (hk.hash k) r,
          rw found,
          placed c e r (replace-Hashes P (hk.hash k) k v c (h i c e)),
        )
      where
        placed :
            (c : Chain K V)
            → get_elem? s.slots (hk.hash k % s.capacity) ≡ some c
            → (r : Option (V × Chain K V)) → HashesWith P r
            → Homes (place s (hk.hash k % s.capacity) c k v (hk.hash k) r).1
        placed c e none a =
            put_slot-Homes s (hk.hash k % s.capacity) c
              (record { key = k; value = v; hash = hk.hash k } ∷ c) (up s.count) e h
              (p, h (hk.hash k % s.capacity) c e)
        placed c e (some (old, c')) a = put_slot-Homes s (hk.hash k % s.capacity) c c' s.count e h a

    pub remove-Homes :
        (out : Option V × Shard K V) × (remove s (hk.hash k) k ≡ some out) × Homes out.1
    unfolding remove take_out
    remove-Homes =
        let (c, found, e) = get_slot-lem (hk.hash k) ok in
        let i = hk.hash k % s.capacity in
        let r = unlink (hk.hash k) k c in
        (take_out s i r, rw found, taken c e r (unlink-Hashes P (hk.hash k) k c (h i c e)))
      where
        taken :
            (c : Chain K V)
            → get_elem? s.slots (hk.hash k % s.capacity) ≡ some c
            → (r : Option (V × Chain K V)) → HashesWith P r
            → Homes (take_out s (hk.hash k % s.capacity) r).1
        taken c e none a = h
        taken c e (some (old, c')) a =
            put_slot-Homes s (hk.hash k % s.capacity) c c' (down s.count 1) e h a

    pub with_mut-Homes :
        (f : V → V)
        → (out : Bool × Shard K V) × (with_mut s (hk.hash k) k f ≡ some out) × Homes out.1
    unfolding with_mut change
    with_mut-Homes f =
        let (c, found, e) = get_slot-lem (hk.hash k) ok in
        let i = hk.hash k % s.capacity in
        let r = modify (hk.hash k) k f c in
        (change s i r, rw found, changed c e r (modify-Hashes P (hk.hash k) k f c (h i c e)))
      where
        changed :
            (c : Chain K V)
            → get_elem? s.slots (hk.hash k % s.capacity) ≡ some c
            → (r : Option (Chain K V)) → HashesOf P r
            → Homes (change s (hk.hash k % s.capacity) r).1
        changed c e none a = h
        changed c e (some c') a = put_slot-Homes s (hk.hash k % s.capacity) c c' s.count e h a

  pub detach-Homes : (s : Shard K V) → Homes (detach s).1
  unfolding detach detach_slots
  detach-Homes s = emptied s.slots s.count
    where
      emptied :
          (cs : List (Chain K V)) (n j : ℕ) (c : Chain K V)
          → get_elem? (detach_slots cs n).0 j ≡ some c
          → Hashes P c
      emptied [] n j c e = absurd (ground (arith, e))
      emptied (d ∷ cs) n zero c e = subst (Hashes P) (some-injective [] c e) tt
      emptied (d ∷ cs) n (suc j) c e = emptied cs (down n (length d)) j c e
