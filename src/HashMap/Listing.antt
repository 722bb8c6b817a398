-- ===== src/HashMap/Listing.antt =====
-- atomic/hashmap.rs: `as_vec` lists the map, and `get` and `contains_key` agree with a search of the
-- list by keys alone.
use mathlib.Core.Option
use mathlib.Core.Option.{some-injective}
use mathlib.Core.Path.{subst, fun_ext}
use crossync.Prelude.{
  ℕ, zero, suc, ◌%◌, ◌^◌, ◌<◌, ◌≡◌, ◌≢◌, refl, sym, ap, ◌∙◌, Option, none, some, List, [], ◌∷◌,
  ◌++◌, map, arith, if◌then◌else◌, get_elem?, All,
}
use crossync.HashMap.Key.{HashKey}
use crossync.HashMap.Chain.{Chain, find, Placed}
use crossync.HashMap.Chain.Hashes.{Hashes}
use crossync.HashMap.Chain.Walks.{present, find_nil, find-cons}
use crossync.HashMap.Shard
use crossync.HashMap.Shard.{Shard, entries}
use crossync.HashMap.Shard.Laws.{get_slot-lem, view-slot}
use crossync.HashMap.Table.{
  Table, determine_shard, with_shard_amount, clear, get, contains_key, collect, as_vec, view,
  IsValid,
}
use crossync.HashMap.Table.Laws.{shard_of-lem}
use crossync.HashMap.Table.Methods.{reads_view, new_lem}
use crossync.HashMap.Refinement.{
  MapOp, put, take, alter, look, has, wipe, Answer, found, said, quiet, call_map, call_all,
  spec_all, call_lem, call_all_refines,
}
use crossync.HashMap.Table.Homes.{
  Homed, insert-Homed, remove-Homed, with_mut-Homed, clear-Homed, new-Homed,
}

-- The first value that is there.
abbrev or_else {ℓ} : {A : Type ℓ} → Option A → Option A → Option A
or_else none o = o
or_else (some a) o = some a

module _ {ℓ} {A B : Type ℓ} (f : A → Option B) where
  abbrev first : List A → Option B
  first [] = none
  first (x ∷ xs) = or_else (f x) (first xs)

  first-none :
      (xs : List A) → ((j : ℕ) (y : A) → get_elem? xs j ≡ some y → f y ≡ none) → first xs ≡ none
  first-none [] h = refl
  first-none (x ∷ xs) h = rw (h 0 x refl) (first-none xs λ j. h (suc j))

  -- Where only one element can give a value, it is the first one.
  first_lem :
      (xs : List A) (m : ℕ) (x : A)
      → get_elem? xs m ≡ some x
      → ((j : ℕ) (y : A) → get_elem? xs j ≡ some y → m ≢ j → f y ≡ none)
      → first xs ≡ f x
  first_lem [] m x e h = absurd (ground (arith, e))
  first_lem (y ∷ xs) zero x e h =
      ground (arith, e, first-none xs λ j z q. h (suc j) z q λ n. absurd (omega (arith, n)))
  first_lem (y ∷ xs) (suc m) x e h =
      rw (h 0 y refl λ n. absurd (omega (arith, n)))
        (first_lem xs m x e λ j z q ne. h (suc j) z q λ n. ne (omega (arith, n)))

module _ {ℓ} {K V : Type ℓ} ⦃hk : HashKey K⦄ where
  -- The value of the first pair with an equal key.
  abbrev pub lookup : K → List (K × V) → Option V
  lookup k [] = none
  lookup k ((j, v) ∷ rest) = if hk.same j k then some v else lookup k rest

  lookup-append :
      (k : K) (xs ys : List (K × V)) → lookup k (xs ++ ys) ≡ or_else (lookup k xs) (lookup k ys)
  lookup-append k [] ys = refl
  lookup-append k ((j, v) ∷ xs) ys = ground (arith, lookup-append k xs ys)

  -- The walk of `get` in a chain, and the search by keys.
  lookup-chain :
      (k : K) (c : Chain K V)
      → All (λ e. e.hash ≡ hk.hash e.key) c
      → lookup k (map (λ e. (e.key, e.value)) c) ≡ find (hk.hash k) k c
  lookup-chain k [] p = sym (find_nil (hk.hash k) k)
  lookup-chain k (e ∷ c) p =
      ground (arith, find-cons (hk.hash k) k e c, p.0, hk.hash-same e.key k, lookup-chain k c p.1)

  -- A chain without the hash of a key has not the key.
  find-none :
      (k : K) (c : Chain K V) → All (λ e. e.hash ≢ hk.hash k) c → find (hk.hash k) k c ≡ none
  find-none k [] a = find_nil (hk.hash k) k
  find-none k (e ∷ c) a = ground (arith, find-cons (hk.hash k) k e c, a.0, find-none k c a.1)

  Placed-hashes : (n i : ℕ) (c : Chain K V) → Placed n i c → All (λ e. e.hash ≡ hk.hash e.key) c
  Placed-hashes n i [] p = tt
  Placed-hashes n i (e ∷ c) p = (p.0, Placed-hashes n i c p.2)

  Placed-apart :
      (k : K) (n i : ℕ) (c : Chain K V)
      → Placed n i c
      → hk.hash k % n ≢ i
      → All (λ e. e.hash ≢ hk.hash k) c
  Placed-apart k n i [] p ne = tt
  Placed-apart k n i (e ∷ c) p ne =
      (λ same. ne (ap (λ h. h % n) (sym same) ∙ p.1), Placed-apart k n i c p.2 ne)

  Hashes-apart :
      (f : ℕ → ℕ) (k : K) (i : ℕ) (c : Chain K V)
      → Hashes (λ h. f h ≡ i) c
      → f (hk.hash k) ≢ i
      → All (λ e. e.hash ≢ hk.hash k) c
  Hashes-apart f k i [] p ne = tt
  Hashes-apart f k i (e ∷ c) p ne =
      (λ same. ne (ap f (sym same) ∙ p.0), Hashes-apart f k i c p.1 ne)

  lookup-entries :
      (k : K) (cs : List (Chain K V))
      → ((j : ℕ) (c : Chain K V) → get_elem? cs j ≡ some c → All (λ e. e.hash ≡ hk.hash e.key) c)
      → lookup k (entries cs) ≡ first (find (hk.hash k) k) cs
  unfolding entries
  lookup-entries k [] h = refl
  lookup-entries k (c ∷ cs) h =
      lookup-append k (map (λ e. (e.key, e.value)) c) (entries cs)
      ∙ rw (lookup-chain k c (h 0 c refl), lookup-entries k cs λ j. h (suc j)) refl

  module _ (k : K) (s : Shard K V) (ok : Shard.IsValid s) where
    lookup-slots : lookup k (entries s.slots) ≡ first (find (hk.hash k) k) s.slots
    lookup-slots =
        lookup-entries k s.slots λ j c e. Placed-hashes s.capacity j c (ok.shaped j c e).1

    lookup-shard : lookup k (entries s.slots) ≡ Shard.view s k
    lookup-shard =
        let (c, there, e) = get_slot-lem (hk.hash k) ok in
        lookup-slots
        ∙ first_lem (find (hk.hash k) k) s.slots (hk.hash k % s.capacity) c e
            (λ j d q ne. find-none k d (Placed-apart k s.capacity j d (ok.shaped j d q).1 ne))
        ∙ sym (view-slot s k c e)

  lookup-collect :
      (k : K) (ss : List (Shard K V))
      → lookup k (collect ss) ≡ first (λ s. lookup k (entries s.slots)) ss
  unfolding collect
  lookup-collect k [] = refl
  lookup-collect k (s ∷ ss) =
      lookup-append k (entries s.slots) (collect ss) ∙ rw (lookup-collect k ss) refl

  -- A search of all entries by keys finds what the key's shard and bucket hold.
  lookup-as_vec : (t : Table K V) (k : K) → IsValid t → Homed t → lookup k (as_vec t) ≡ view t k
  unfolding as_vec
  lookup-as_vec t k ok h =
      let (s, there, e, sv) = shard_of-lem t (hk.hash k) ok in
      lookup-collect k t.shards
      ∙ first_lem (λ s. lookup k (entries s.slots)) t.shards (determine_shard t (hk.hash k)) s e
          (λ j d q ne.
            lookup-slots k d (ok.shards_valid j d q)
            ∙ first-none (find (hk.hash k) k) d.slots
                λ i c r. find-none k c (Hashes-apart (determine_shard t) k j c (h j d q i c r) ne))
      ∙ lookup-shard k s sv
      ∙ (let here : view t k ≡ Shard.view s k = rw e in sym here)

  same-Homed :
      (o : Option (Answer V × Table K V)) (a out : Answer V × Table K V)
      → o ≡ some a
      → o ≡ some out
      → Homed a.1
      → Homed out.1
  same-Homed o a out e f h =
      subst (λ (r : Answer V × Table K V). Homed r.1) (some-injective a out (sym e ∙ f)) h

  call-Homed :
      (o : MapOp K V) (t : Table K V) (out : Answer V × Table K V)
      → IsValid t
      → Homed t
      → call_map o t ≡ some out
      → Homed out.1
  unfolding call_map
  call-Homed (put k v) t out ok h e =
      let (r, e', h') = insert-Homed t k v ok h in same-Homed _ (found r.0, r.1) out (rw e') e h'
  call-Homed (take k) t out ok h e =
      let (r, e', h') = remove-Homed t k ok h in same-Homed _ (found r.0, r.1) out (rw e') e h'
  call-Homed (alter k f) t out ok h e =
      let (r, e', h') = with_mut-Homed t k f ok h in same-Homed _ (said r.0, r.1) out (rw e') e h'
  call-Homed (look k) t out ok h e =
      same-Homed _ (found (view t k), t) out (rw (reads_view t k ok).0) e h
  call-Homed (has k) t out ok h e =
      same-Homed _ (said (present (view t k)), t) out (rw (reads_view t k ok).1) e h
  call-Homed wipe t out ok h e = same-Homed _ (quiet, clear t) out refl e (clear-Homed t)

  call_all-Homed :
      (os : List (MapOp K V)) (t : Table K V)
      → IsValid t
      → Homed t
      → (out : List (Answer V) × Table K V) × (call_all os t ≡ some out) × Homed out.1
  unfolding call_all Option.bind
  call_all-Homed [] t ok h = (([], t), refl, h)
  call_all-Homed (o ∷ os) t ok h =
      let (r, c) = call_lem o t ok in
      let (q, e, h') = call_all-Homed os r.1 c.valid (call-Homed o t r ok h c.done) in
      ((r.0 ∷ q.0, q.1), rw (c.done, e), h')

  -- After any sequence of insert, remove, with_mut, get, contains_key and clear on a new map, which
  -- never panics, a search of `as_vec` for a key, by keys alone and over all shards, gives the value
  -- that the same calls leave to the key in a function that begins without values; `get` returns the
  -- same, and `contains_key` whether it is there.
  pub as_vec_lists :
      (capacity shard_amount : ℕ) (t : Table K V) (os : List (MapOp K V))
      → shard_amount < 2 ^ 64
      → with_shard_amount capacity shard_amount ≡ some t
      → (out : List (Answer V) × Table K V) × (call_all os t ≡ some out)
        × ((k : K)
            → (lookup k (as_vec out.1) ≡ (spec_all os (λ _. none)).1 k)
              × (get out.1 k ≡ some (lookup k (as_vec out.1)))
              × (contains_key out.1 k ≡ some (present (lookup k (as_vec out.1)))))
  as_vec_lists capacity amount t os lt made =
      let blank = new_lem capacity amount t lt made in
      let (out, e, _, becomes, valid) = call_all_refines os t blank.valid in
      let (out', e', homed) = call_all-Homed os t blank.valid (new-Homed capacity amount t made) in
      let same : out' ≡ out = some-injective out' out (sym e' ∙ e) in
      let listed = λ (k : K). lookup-as_vec out.1 k valid (subst (λ o. Homed o.1) same homed) in
      (
        out,
        e,
        λ k. (
          listed k
              ∙ ap (λ m. m k) becomes
              ∙ ap (λ m. (spec_all os m).1 k) (fun_ext λ j. blank.unmapped j),
          rw (listed k) (reads_view out.1 k valid).0,
          rw (listed k) (reads_view out.1 k valid).1,
        ),
      )
