-- ===== src/HashMap/Table/Homes.antt =====
-- atomic/hashmap.rs: every entry of an `AtomicHashMap` stays in the shard of its hash.
use mathlib.Core.Path.{subst}
use crossync.Prelude.{
  ℕ, ◌≡◌, refl, sym, ap, ◌∙◌, inl, inr, Bool, Option, some, [], get_elem?, get_elem?-set_cases,
  get_elem?-map, eq_of_get_elem?-replicate,
}
use crossync.HashMap.Key.{HashKey}
use crossync.HashMap.Chain.Hashes.{Hashes}
use crossync.HashMap.Shard
use crossync.HashMap.Shard.{Shard}
use crossync.HashMap.Shard.Homes.{Homes, insert-Homes, remove-Homes, with_mut-Homes, detach-Homes}
use crossync.HashMap.Table.{
  Table, determine_shard, on_shard, put_shard, insert, remove, with_mut, clear, with_shard_amount,
  IsValid,
}
use crossync.HashMap.Table.Laws.{shard_of-lem}
use crossync.HashMap.Table.Methods.{new_parts}

module _ {ℓ} {K V : Type ℓ} ⦃hk : HashKey K⦄ where
  -- Every entry of shard `i` has a hash that `determine_shard` sends there.
  abbrev pub Homed : Table K V → Type ℓ
  Homed t =
      (i : ℕ) (s : Shard K V)
      → get_elem? t.shards i ≡ some s
      → Homes (λ h. determine_shard t h ≡ i) s

  on_shard-Homed {κ} :
      {R : Type κ} (t : Table K V) (k : K) (f : Shard K V → Option (R × Shard K V))
      → ((s : Shard K V)
          → Shard.IsValid s
          → Homes (λ h. determine_shard t h ≡ determine_shard t (hk.hash k)) s
          → (out : R × Shard K V) × (f s ≡ some out)
            × Homes (λ h. determine_shard t h ≡ determine_shard t (hk.hash k)) out.1)
      → IsValid t
      → Homed t
      → (out : R × Table K V) × (on_shard t (hk.hash k) f ≡ some out) × Homed out.1
  unfolding on_shard determine_shard
  on_shard-Homed t k f law ok h =
      let (s, found, e, sv) = shard_of-lem t (hk.hash k) ok in
      let i = determine_shard t (hk.hash k) in
      let (out, done, homes) = law s sv (h i s e) in
      (
        (out.0, put_shard t i out.1),
        rw (found, done),
        λ j d q. elim (get_elem?-set_cases t.shards i j s out.1 d e q) [
          | inl (here, same) ↦
              subst (λ j. Homes (λ h. determine_shard t h ≡ j) d) here
                (subst (Homes (λ h. determine_shard t h ≡ i)) same homes)
          | inr (_, was) ↦ h j d was
        ],
      )

  pub insert-Homed :
      (t : Table K V) (k : K) (v : V)
      → IsValid t
      → Homed t
      → (out : Option V × Table K V) × (insert t k v ≡ some out) × Homed out.1
  unfolding insert
  insert-Homed t k v =
      on_shard-Homed t k (λ s. Shard.insert s k v (hk.hash k))
        λ s sv homes. insert-Homes _ s k sv homes v refl

  pub remove-Homed :
      (t : Table K V) (k : K)
      → IsValid t
      → Homed t
      → (out : Option V × Table K V) × (remove t k ≡ some out) × Homed out.1
  unfolding remove
  remove-Homed t k =
      on_shard-Homed t k (λ s. Shard.remove s (hk.hash k) k)
        λ s sv homes. remove-Homes _ s k sv homes

  pub with_mut-Homed :
      (t : Table K V) (k : K) (f : V → V)
      → IsValid t
      → Homed t
      → (out : Bool × Table K V) × (with_mut t k f ≡ some out) × Homed out.1
  unfolding with_mut
  with_mut-Homed t k f =
      on_shard-Homed t k (λ s. Shard.with_mut s (hk.hash k) k f)
        λ s sv homes. with_mut-Homes _ s k sv homes f

  pub clear-Homed : (t : Table K V) → Homed (clear t)
  unfolding clear
  clear-Homed t i s e =
      let (s0, e0, same) = get_elem?-map (λ s. (Shard.detach s).1) t.shards i s e in
      subst (Homes (λ h. determine_shard (clear t) h ≡ i)) same (detach-Homes _ s0)

  pub new-Homed :
      (capacity amount : ℕ) (t : Table K V) → with_shard_amount capacity amount ≡ some t → Homed t
  unfolding Shard.new
  new-Homed capacity amount t e =
      let (n, fits, two, power, eq) = new_parts capacity amount t e in
      subst Homed (sym eq) λ i s e' j c q.
        let made = eq_of_get_elem?-replicate amount i (Shard.new n) e' in
        let empty = eq_of_get_elem?-replicate n j [] (ap (λ s. get_elem? s.slots j) made ∙ q) in
        subst (Hashes _) empty tt
