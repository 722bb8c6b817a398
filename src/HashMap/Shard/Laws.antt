-- ===== src/HashMap/Shard/Laws.antt =====
-- atomic/hashmap.rs: what the operations of a shard do to the map that it stands for.
use mathlib.Core.Path.{subst, subst₂}
use crossync.Prelude.{
  ℕ, ◌+◌, ◌-◌, ◌%◌, ◌^◌, ◌≡◌, ◌≢◌, refl, sym, ap, ◌∙◌, Bool-cases, inl, inr, true, false, ◌&&◌,
  Option, none, some, [], ◌∷◌, arith, ◌==◌, if◌then◌else◌, get_elem?, get_or, set, length,
  length-set, get_elem?-of_lt, get_or-set_self, get_or-set_ne, get_or-of_get_elem?, get_elem?-set,
  get_elem?-set_ne, sum_by-others, sum_by-set, lt_of_get_elem?,
}
use native.Mathlib.Decide.{ℕ_discrete}
use crossync.HashMap.Key.{HashKey}
use crossync.HashMap.Chain.{Entry, Chain, find, replace, unlink}
use crossync.HashMap.Chain.Shape.{Shaped, Kept, replace-Shaped, unlink-Shaped, cons-Shaped}
use crossync.HashMap.Chain.Walks.{
  find-cons, find_congr, Replaced, Unlinked, replace-Replaced, unlink-Unlinked,
}
use crossync.HashMap.Shard.{
  Shard, get_slot, put_slot, up, down, place, insert, take_out, remove, view, size, IsValid,
}

-- 1 for a key that is not there.
abbrev pub missing {ℓ} : {V : Type ℓ} → Option V → ℕ
missing none = 1
missing (some _) = 0

module _ {ℓ} {K : Type ℓ} ⦃hk : HashKey K⦄ where
  -- Keys that are the same have the same hash, so the walks' test is the test of the keys.
  hit_test : (k j : K) → (hk.hash k == hk.hash j && hk.same k j) ≡ hk.same k j
  hit_test k j = ground (arith, hk.hash-same k j)

  -- Keys in different buckets are not the same.
  apart : (k j : K) (n : ℕ) → hk.hash k % n ≢ hk.hash j % n → hk.same k j ≡ false
  apart k j n ne = ground (arith, hk.hash-same k j)

module _ {ℓ} {K V : Type ℓ} ⦃hk : HashKey K⦄ where
  -- In a valid shard every hash has a bucket.
  pub get_slot-lem :
      {s : Shard K V} (hash : ℕ)
      → IsValid s
      → (c : Chain K V) × (get_slot s hash ≡ some (hash % s.capacity, c))
        × (get_elem? s.slots (hash % s.capacity) ≡ some c)
  unfolding get_slot
  get_slot-lem {s} hash v =
      let (c, e) = get_elem?-of_lt s.slots (hash % s.capacity) (omega (arith, v)) in
      (c, ground (arith, e, v), e)

  pub size-put_slot :
      (s : Shard K V) (i : ℕ) (c c' : Chain K V) (n : ℕ)
      → get_elem? s.slots i ≡ some c
      → size (put_slot s i c' n) + length c ≡ size s + length c'
  size-put_slot s i c c' n e =
      omega (arith, sum_by-others length s.slots i c e, sum_by-set length s.slots i c c' e)

  -- Writing back a bucket of the right shape keeps the shard valid, if the count follows.
  put_slot-IsValid :
      {s : Shard K V} (i : ℕ) (c c' : Chain K V) (n : ℕ)
      → IsValid s
      → get_elem? s.slots i ≡ some c
      → Shaped s.capacity i c'
      → n ≡ (size s + length c' - length c) % 2 ^ 64
      → IsValid (put_slot s i c' n) × (size (put_slot s i c' n) + length c ≡ size s + length c')
  put_slot-IsValid {s} i c c' n v e sh h = (
    record {
      sized = omega (arith, length-set s.slots i c', v.sized);
      nonempty = v.nonempty;
      shaped = shaped_all;
      counted = omega (arith, sums, h);
    },
    sums,
  )
    where
      sums : size (put_slot s i c' n) + length c ≡ size s + length c'
      sums = size-put_slot s i c c' n e

      shaped_all :
          (j : ℕ) (d : Chain K V) → get_elem? (set s.slots i c') j ≡ some d → Shaped s.capacity j d
      shaped_all j d q = elim (ℕ_discrete i j) [
        | yes same ↦
            subst₂ (λ j d. Shaped s.capacity j d) same
              (ground (arith, q, get_elem?-set s.slots i j c' (lt_of_get_elem? s.slots i e))) sh
        | no other ↦ v.shaped j d (sym (get_elem?-set_ne s.slots i j c' other) ∙ q)
      ]

  -- Keys that are the same are looked up alike.
  pub view-same : (s : Shard K V) (k j : K) → hk.same k j ≡ true → view s j ≡ view s k
  view-same s k j t = rw (hk.hash-same k j t) (sym (find_congr (hk.hash j) k j _ t))

  pub view-slot :
      (s : Shard K V) (k : K) (c : Chain K V)
      → get_elem? s.slots (hk.hash k % s.capacity) ≡ some c
      → view s k ≡ find (hk.hash k) k c
  view-slot s k c e = ap (find (hk.hash k) k) (get_or-of_get_elem? s.slots _ c [] e)

  -- What an operation on key `k` that leaves `w` there has done to the shard.
  pub record Updates (s : Shard K V) (k : K) (w : Option V) (s' : Shard K V) : Type ℓ where
    pub valid : IsValid s'
    pub same_capacity : s'.capacity ≡ s.capacity
    pub looked_up : (j : K) → view s' j ≡ (if hk.same k j then w else view s j)

  pub put_slot-Updates :
      (s : Shard K V) (k : K) (c c' : Chain K V) (n : ℕ) (w : Option V)
      → IsValid s
      → get_elem? s.slots (hk.hash k % s.capacity) ≡ some c
      → Shaped s.capacity (hk.hash k % s.capacity) c'
      → n ≡ (size s + length c' - length c) % 2 ^ 64
      → ((j : K)
          → find (hk.hash j) j c'
            ≡ (if hk.hash k == hk.hash j && hk.same k j then w else find (hk.hash j) j c))
      → Updates s k w (put_slot s (hk.hash k % s.capacity) c' n)
  put_slot-Updates s k c c' n w v e sh h found = record {
    valid = (put_slot-IsValid (hk.hash k % s.capacity) c c' n v e sh h).0;
    same_capacity = refl;
    looked_up = λ j. elim (ℕ_discrete i (hk.hash j % s.capacity)) [
      | yes here ↦ at_bucket j here
      | no other ↦
          rw (apart k j s.capacity other)
            (ap (find (hk.hash j) j) (get_or-set_ne s.slots i (hk.hash j % s.capacity) c' [] other))
    ];
  }
    where
      i : ℕ
      i = hk.hash k % s.capacity

      -- the bucket of `j` before and after
      before : (j : K) → i ≡ hk.hash j % s.capacity → get_or s.slots (hk.hash j % s.capacity) [] ≡ c
      before j here =
          subst (λ x. get_or s.slots x [] ≡ c) here (get_or-of_get_elem? s.slots i c [] e)

      after :
          (j : K)
          → i ≡ hk.hash j % s.capacity
          → get_or (set s.slots i c') (hk.hash j % s.capacity) [] ≡ c'
      after j here =
          subst (λ x. get_or (set s.slots i c') x [] ≡ c') here
            (get_or-set_self s.slots i c' [] (lt_of_get_elem? s.slots i e))

      at_bucket :
          (j : K)
          → i ≡ hk.hash j % s.capacity
          → view (put_slot s i c' n) j ≡ (if hk.same k j then w else view s j)
      at_bucket j here =
          rw (after j here, before j here)
            (found j ∙ ap (λ t. if t then w else find (hk.hash j) j c) (hit_test k j))

  -- What `insert` leaves, by what the walk of its bucket found.
  place_lem :
      (s : Shard K V) (k : K) (v : V) (c : Chain K V)
      → IsValid s
      → get_elem? s.slots (hk.hash k % s.capacity) ≡ some c
      → (r : Option (V × Chain K V)) → ((j : K) → Replaced (hk.hash k) k v c (hk.hash j) j r)
      → Kept s.capacity (hk.hash k % s.capacity) r
      → let out = place s (hk.hash k % s.capacity) c k v (hk.hash k) r in
        (out.0 ≡ view s k) × Updates s k (some v) out.1 × (size out.1 ≡ size s + missing (view s k))
  unfolding place
  place_lem s k v c ok e (some (old, c')) found kept = (
    sym (view-slot s k c e ∙ (found k).0),
    put_slot-Updates s k c c' s.count (some v) ok e kept (omega (arith, ok.counted, (found k).2))
        (λ j. (found j).1),
    rw (view-slot s k c e, (found k).0)
        (omega (arith, size-put_slot s (hk.hash k % s.capacity) c c' s.count e, (found k).2)),
  )
  place_lem s k v c ok e none found kept = (
    sym (view-slot s k c e ∙ found k),
    put_slot-Updates s k c (entry ∷ c) (up s.count) (some v) ok e
        (cons-Shaped s.capacity i k v c (found k) refl (ok.shaped i c e))
        (omega (arith, ok.counted)) (λ j. find-cons (hk.hash j) j entry c),
    rw (view-slot s k c e, found k) (omega (arith, size-put_slot s i c (entry ∷ c) (up s.count) e)),
  )
    where
      i : ℕ
      i = hk.hash k % s.capacity

      entry : Entry K V
      entry = record { key = k; value = v; hash = hk.hash k }

  -- `insert` in a valid shard never panics. It returns what the key had, the key has the value
  -- then and every other key what it had, and the count grows by one exactly for a new key.
  pub insert_lem :
      (s : Shard K V) (k : K) (v : V)
      → IsValid s
      → (out : Option V × Shard K V) × (insert s k v (hk.hash k) ≡ some out)
        × (out.0 ≡ view s k)
        × Updates s k (some v) out.1
        × (size out.1 ≡ size s + missing (view s k))
  unfolding insert
  insert_lem s k v ok =
      let (c, found, e) = get_slot-lem (hk.hash k) ok in
      let r = replace (hk.hash k) k v c in
      let i = hk.hash k % s.capacity in
      let (old, upd, sz) =
        place_lem s k v c ok e r (λ j. replace-Replaced (hk.hash k) k v c (hk.hash j) j)
          (replace-Shaped s.capacity i (hk.hash k) k v c (ok.shaped i c e)) in
      (place s i c k v (hk.hash k) r, rw found, old, upd, sz)

  take_out_lem :
      (s : Shard K V) (k : K) (c : Chain K V)
      → IsValid s
      → get_elem? s.slots (hk.hash k % s.capacity) ≡ some c
      → (r : Option (V × Chain K V)) → ((j : K) → Unlinked (hk.hash k) k c (hk.hash j) j r)
      → Kept s.capacity (hk.hash k % s.capacity) r
      → let out = take_out s (hk.hash k % s.capacity) r in
        (out.0 ≡ view s k) × Updates s k none out.1 × (size out.1 + 1 ≡ size s + missing (view s k))
  unfolding take_out
  take_out_lem s k c ok e (some (old, c')) found kept = (
    sym (view-slot s k c e ∙ (found k).0),
    put_slot-Updates s k c c' (down s.count 1) none ok e kept
        (omega (
          arith,
          ok.counted,
          (found k).2,
          sum_by-others length s.slots (hk.hash k % s.capacity) c e,
        ))
        (λ j. (found j).1),
    rw (view-slot s k c e, (found k).0)
        (omega
          (arith, size-put_slot s (hk.hash k % s.capacity) c c' (down s.count 1) e, (found k).2)),
  )
  take_out_lem s k c ok e none found kept = (
    sym absent,
    record {
      valid = ok;
      same_capacity = refl;
      looked_up = λ j. elim (Bool-cases (hk.same k j)) [
        | inl t ↦ rw t (view-same s k j t ∙ absent)
        | inr f ↦ rw f
      ];
    },
    rw absent,
  )
    where
      absent : view s k ≡ none
      absent = view-slot s k c e ∙ found k

  -- `remove` in a valid shard never panics. It returns what the key had, the key has nothing then
  -- and every other key what it had, and the count falls by one exactly if the key was there.
  pub remove_lem :
      (s : Shard K V) (k : K)
      → IsValid s
      → (out : Option V × Shard K V) × (remove s (hk.hash k) k ≡ some out)
        × (out.0 ≡ view s k)
        × Updates s k none out.1
        × (size out.1 + 1 ≡ size s + missing (view s k))
  unfolding remove
  remove_lem s k ok =
      let (c, found, e) = get_slot-lem (hk.hash k) ok in
      let r = unlink (hk.hash k) k c in
      let i = hk.hash k % s.capacity in
      let (old, upd, sz) =
        take_out_lem s k c ok e r
          (λ j. unlink-Unlinked (hk.hash k) k c (hk.hash j) j (ok.shaped i c e).0)
          (unlink-Shaped s.capacity i (hk.hash k) k c (ok.shaped i c e)) in
      (take_out s i r, rw found, old, upd, sz)
