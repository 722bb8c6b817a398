-- ===== src/HashMap/Shard/Reads.antt =====
-- atomic/hashmap.rs: a fresh shard, the reads of a shard, writes in place, and its clearing.
use mathlib.Core.Option
use crossync.Prelude.{
  ℕ, ◌+◌, ◌%◌, ◌^◌, ◌<◌, ◌≡◌, refl, sym, ap, ◌∙◌, Bool, Bool-cases, inl, inr, Option, none, some,
  List, [], ◌∷◌, arith, get_elem?, replicate, length, sum_by, sum_by-replicate, length-replicate,
  eq_of_get_elem?-replicate, get_or-replicate,
}
use mathlib.Core.Path.{subst, subst₂}
use mathlib.Core.Option.{some-injective}
use crossync.HashMap.Key.{HashKey}
use crossync.HashMap.Chain.{Chain, find, modify}
use crossync.HashMap.Chain.Shape.{Shaped, KeptChain, modify-Shaped}
use crossync.HashMap.Chain.Walks.{present, find_nil, contains_lem, Modified, modify-Modified}
use crossync.HashMap.Shard.{
  Shard, new, detach_slots, detach, down, contains_key, get, change, with_mut, view, size, IsValid,
}
use crossync.HashMap.Shard.Laws.{
  get_slot-lem, view-slot, view-same, put_slot-Updates, Updates, size-put_slot,
}

module _ {ℓ} {K V : Type ℓ} ⦃hk : HashKey K⦄ where
  empty-Shaped : (n b i : ℕ) (c : Chain K V) → get_elem? (replicate n []) i ≡ some c → Shaped b i c
  empty-Shaped n b i c e = subst (Shaped b i) (eq_of_get_elem?-replicate n i [] e) (tt, tt)

  -- A shard of empty buckets with a count of zero is valid and stands for the empty map.
  pub record IsBlank (s : Shard K V) : Type ℓ where
    pub valid : IsValid s
    pub empty : (k : K) → view s k ≡ none
    pub no_entries : size s ≡ 0

  blank :
      (n m : ℕ)
      → 0 < n
      → m ≡ 0
      → IsBlank (record { slots = replicate n []; capacity = n; count = m })
  blank n m h z = record {
    valid = record {
      sized = length-replicate n [];
      nonempty = h;
      shaped = empty-Shaped n n;
      counted = omega (arith, z, no_entries);
    };
    empty = λ k.
        ap (find (hk.hash k) k) (get_or-replicate n (hk.hash k % n) []) ∙ find_nil (hk.hash k) k;
    no_entries = no_entries;
  }
    where
      no_entries : sum_by length (replicate {A = Chain K V} n []) ≡ 0
      no_entries = sum_by-replicate length n [] refl

  pub new-IsBlank : (n : ℕ) → 0 < n → IsBlank (new n)
  unfolding new
  new-IsBlank n h = blank n 0 h refl

  detach_slots_lem :
      (cs : List (Chain K V)) (n m : ℕ)
      → n ≡ (m + sum_by length cs) % 2 ^ 64
      → ((detach_slots cs n).0 ≡ replicate (length cs) []) × ((detach_slots cs n).1 ≡ m % 2 ^ 64)
  unfolding detach_slots
  detach_slots_lem [] n m h = (refl, omega (arith, h))
  detach_slots_lem (c ∷ cs) n m h =
      let (slots, left) = detach_slots_lem cs (down n (length c)) m (omega (arith, h)) in
      (ap (λ l. [] ∷ l) slots, left)

  -- `try_detach` with every bucket locked hands out every chain of a valid shard, and leaves it
  -- valid and empty, at its capacity.
  pub detach_lem :
      (s : Shard K V)
      → IsValid s
      → ((detach s).0 ≡ s.slots) × IsBlank (detach s).1 × ((detach s).1.capacity ≡ s.capacity)
  unfolding detach
  detach_lem s ok =
      let (slots, left) = detach_slots_lem s.slots s.count 0 (omega (arith, ok.counted)) in
      (
        refl,
        subst₂ (λ l m. IsBlank (record { slots = l; capacity = s.capacity; count = m }))
            (sym (slots ∙ ap (λ n. replicate n []) ok.sized)) (sym left)
            (blank s.capacity 0 ok.nonempty refl),
        refl,
      )

  -- `get` and `contains` in a valid shard never panic, and read the map.
  pub reads_lem :
      (s : Shard K V) (k : K)
      → IsValid s
      → (get s (hk.hash k) k ≡ some (view s k))
        × (contains_key s (hk.hash k) k ≡ some (present (view s k)))
  unfolding get contains_key
  reads_lem s k ok =
      let (c, found, e) = get_slot-lem (hk.hash k) ok in
      (rw (found, view-slot s k c e), rw (found, view-slot s k c e, contains_lem (hk.hash k) k c))

  change_lem :
      (s : Shard K V) (k : K) (f : V → V) (c : Chain K V)
      → IsValid s
      → get_elem? s.slots (hk.hash k % s.capacity) ≡ some c
      → (r : Option (Chain K V)) → ((j : K) → Modified (hk.hash k) k f c (hk.hash j) j r)
      → KeptChain s.capacity (hk.hash k % s.capacity) r
      → let out = change s (hk.hash k % s.capacity) r in
        (out.0 ≡ present (view s k))
        × Updates s k (Option.map f (view s k)) out.1
        × (size out.1 ≡ size s)
  unfolding change
  change_lem s k f c ok e (some c') found kept = (
    sym (ap present (view-slot s k c e) ∙ (found k).2),
    put_slot-Updates s k c c' s.count (Option.map f (view s k)) ok e kept
        (omega (arith, ok.counted, (found k).1)) (λ j. rw (view-slot s k c e) (found j).0),
    omega (arith, size-put_slot s (hk.hash k % s.capacity) c c' s.count e, (found k).1),
  )
  change_lem s k f c ok e none found kept = (
    ap present (sym absent),
    record {
      valid = ok;
      same_capacity = refl;
      looked_up = λ j. elim (Bool-cases (hk.same k j)) [
        | inl t ↦ rw (t, absent) (view-same s k j t ∙ absent)
        | inr no_hit ↦ rw no_hit
      ];
    },
    refl,
  )
    where
      absent : view s k ≡ none
      absent = view-slot s k c e ∙ found k

  -- `with_mut` in a valid shard never panics. It runs the callback exactly if the key is there; the
  -- key has the changed value then, every other key what it had, and the count stays.
  pub with_mut_lem :
      (s : Shard K V) (k : K) (f : V → V)
      → IsValid s
      → (out : Bool × Shard K V) × (with_mut s (hk.hash k) k f ≡ some out)
        × (out.0 ≡ present (view s k))
        × Updates s k (Option.map f (view s k)) out.1
        × (size out.1 ≡ size s)
  unfolding with_mut
  with_mut_lem s k f ok =
      let (c, found, e) = get_slot-lem (hk.hash k) ok in
      let i = hk.hash k % s.capacity in
      let r = modify (hk.hash k) k f c in
      let (ran, upd, sz) =
        change_lem s k f c ok e r (λ j. modify-Modified (hk.hash k) k f c (hk.hash j) j)
          (modify-Shaped s.capacity i (hk.hash k) k f c (ok.shaped i c e)) in
      (change s i r, rw found, ran, upd, sz)
