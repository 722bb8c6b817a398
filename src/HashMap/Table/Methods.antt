-- ===== src/HashMap/Table/Methods.antt =====
-- atomic/hashmap.rs: what each public method of `AtomicHashMap` does to the map.
use mathlib.Core.Option
use mathlib.Core.Path.{subst}
use crossync.Prelude.{
  length-append, ◌⊎◌, ℕ, ◌+◌, ◌-◌, ◌*◌, ◌/◌, ◌%◌, ◌^◌, ◌≤◌, ◌<◌, ◌≡◌, refl, sym, ◌∙◌, Bool, true,
  Option, none, some, List, [], ◌∷◌, map, arith, sum_by-congr, sum_by-zero, le-sum_by, length-map,
  get_elem?-map, Option-cases, inl, inr, eq_of_get_elem?-replicate, length-replicate, get_elem?,
  replicate, length, sum_by, ◌↔◌,
}
use native.Mathlib.Nat.{mul-div_cancel, mod-lt, div-add-mod}
use crossync.Usize.{is_power_of_two, trailing_zeros, power_of_two_lem}
use crossync.HashMap.Key.{HashKey}
use crossync.HashMap.Chain.{Chain}
use crossync.HashMap.Chain.Walks.{present}
use crossync.HashMap.Shard
use crossync.HashMap.Shard.{Shard}
use crossync.HashMap.Shard.Laws.{missing, insert_lem, remove_lem}
use crossync.HashMap.Shard.Reads.{IsBlank, new-IsBlank, detach_lem, reads_lem, with_mut_lem}
use crossync.HashMap.Table.{
  Table, capacity_per_shard, with_shard_amount, insert, remove, with_mut, get, contains_key, len,
  as_vec, collect, is_empty, clear, determine_shard, view, view_at, size, IsValid,
}
use crossync.HashMap.Table.Laws.{Sets, on_shard_lem, shard_of-lem}

-- The multiple of `a` at or above a positive `c`.
round_up :
    (c a : ℕ)
    → 0 < a
    → 0 < c
    → let n = (c + (a - 1)) / a * a / a in (0 < n) × (c ≤ n * a) × (n * a < c + a)
round_up c a pos some_c = rw (mul-div_cancel ((c + (a - 1)) / a) pos) (
  grind (arith, mod-lt (c + (a - 1)) pos, div-add-mod (c + (a - 1)) a),
  omega (arith, mod-lt (c + (a - 1)) pos, div-add-mod (c + (a - 1)) a),
  omega (arith, mod-lt (c + (a - 1)) pos, div-add-mod (c + (a - 1)) a),
)

-- The capacity of a shard is positive, and the shards together have at least the capacity asked
-- for, with less than one entry a shard to spare if one was asked for.
pub capacity_per_shard_lem :
    (capacity shard_amount n : ℕ)
    → 1 < shard_amount
    → capacity_per_shard capacity shard_amount ≡ some n
    → (0 < n)
      × (capacity ≤ n * shard_amount)
      × ((n * shard_amount < capacity + shard_amount) ⊎ (capacity ≡ 0))
unfolding capacity_per_shard
capacity_per_shard_lem capacity amount n h e = ground (arith, round_up capacity amount)

module _ {ℓ} {K V : Type ℓ} ⦃hk : HashKey K⦄ where
  -- `insert` never panics in a valid map: it returns the value that the key had, sets the key to
  -- the new one and leaves every other key, keeps the map valid, and the number of entries grows
  -- by one exactly for a new key.
  pub insert-Sets :
      (t : Table K V) (k : K) (v : V)
      → IsValid t
      → (out : Option V × Table K V) × (insert t k v ≡ some out)
        × (out.0 ≡ view t k)
        × Sets t k (some v) out.1
        × (size out.1 ≡ size t + missing (view t k))
  unfolding insert
  insert-Sets t k v ok =
      let (out, done, old, sets, sz) =
        on_shard_lem t k (λ s. Shard.insert s k v (hk.hash k)) (λ o. o) (λ _. some v) 0 missing
          (λ s sv.
            let (out, done, old, upd, sz) = insert_lem s k v sv in
            (out, done, old, upd, omega (arith, sz)))
          ok in
      (out, done, old, sets, omega (arith, sz))

  -- `remove` never panics in a valid map: it returns the value that the key had, leaves the key
  -- without one and every other key as it was, keeps the map valid, and the number of entries falls
  -- by one exactly if the key was there.
  pub remove-Sets :
      (t : Table K V) (k : K)
      → IsValid t
      → (out : Option V × Table K V) × (remove t k ≡ some out)
        × (out.0 ≡ view t k)
        × Sets t k none out.1
        × (size out.1 + 1 ≡ size t + missing (view t k))
  unfolding remove
  remove-Sets t k ok =
      on_shard_lem t k (λ s. Shard.remove s (hk.hash k) k) (λ o. o) (λ _. none) 1 missing
        (λ s sv. remove_lem s k sv) ok

  -- `with_mut` never panics in a valid map: it runs the callback exactly if the key is there, sets
  -- the key to the changed value, leaves every other key, keeps the map valid, and the number of
  -- entries stays.
  pub with_mut-Sets :
      (t : Table K V) (k : K) (f : V → V)
      → IsValid t
      → (out : Bool × Table K V) × (with_mut t k f ≡ some out)
        × (out.0 ≡ present (view t k))
        × Sets t k (Option.map f (view t k)) out.1
        × (size out.1 ≡ size t)
  unfolding with_mut
  with_mut-Sets t k f ok =
      let (out, done, ran, sets, sz) =
        on_shard_lem t k (λ s. Shard.with_mut s (hk.hash k) k f) present (Option.map f) 0 (λ _. 0)
          (λ s sv.
            let (out, done, ran, upd, sz) = with_mut_lem s k f sv in
            (out, done, ran, upd, omega (arith, sz)))
          ok in
      (out, done, ran, sets, omega (arith, sz))

  -- `get` and `contains_key` never panic in a valid map, and read it.
  pub reads_view :
      (t : Table K V) (k : K)
      → IsValid t
      → (get t k ≡ some (view t k)) × (contains_key t k ≡ some (present (view t k)))
  unfolding get contains_key Option.bind
  reads_view t k ok =
      let (s, found, e, sv) = shard_of-lem t (hk.hash k) ok in
      let (got, has) = reads_lem s k sv in (rw (found, e) got, rw (found, e) has)

  exact_count :
      (s : Shard K V) → Shard.IsValid s → Shard.size s < 2 ^ 64 → Shard.len s ≡ Shard.size s
  unfolding Shard.len
  exact_count s ok small = omega (arith, ok.counted)

  -- `len` is the number of entries, and `is_empty` says that there are none, while they can be
  -- counted in a usize.
  pub len_lem :
      (t : Table K V)
      → IsValid t
      → size t < 2 ^ 64
      → (len t ≡ size t) × ((is_empty t ≡ true) ↔ (size t ≡ 0))
  unfolding len is_empty
  len_lem t ok small =
      let counts : sum_by Shard.len t.shards ≡ size t =
        sum_by-congr Shard.len Shard.size t.shards λ i s e.
          exact_count s (ok.shards_valid i s e)
            (omega (arith, small, le-sum_by Shard.size t.shards i s e)) in
      let total : sum_by Shard.len t.shards % 2 ^ 64 ≡ size t = omega (arith, counts, small) in
      (total, ground (arith, total))

  length-entries : (cs : List (Chain K V)) → length (Shard.entries cs) ≡ sum_by length cs
  unfolding Shard.entries
  length-entries [] = refl
  length-entries (c ∷ cs) = omega (
    arith,
    length-append {A = K × V} (map (λ e. (e.key, e.value)) c) (Shard.entries cs),
    length-map {B = K × V} (λ e. (e.key, e.value)) c,
    length-entries cs,
  )

  length-collect : (ss : List (Shard K V)) → length (collect ss) ≡ sum_by Shard.size ss
  unfolding collect
  length-collect [] = refl
  length-collect (s ∷ ss) = omega (
    arith,
    length-append (Shard.entries s.slots) (collect ss),
    length-entries s.slots,
    length-collect ss,
  )

  -- In a valid map whose entries can be counted in a usize, `as_vec` has as many entries as `len`
  -- says.
  pub as_vec-len : (t : Table K V) → IsValid t → size t < 2 ^ 64 → length (as_vec t) ≡ len t
  unfolding as_vec
  as_vec-len t ok small = length-collect t.shards ∙ sym (len_lem t ok small).0

  -- A table of blank shards is valid and stands for the empty map.
  pub record IsEmpty (t : Table K V) : Type ℓ where
    pub valid : IsValid t
    pub unmapped : (k : K) → view t k ≡ none
    pub no_entries : size t ≡ 0

  blank_shards :
      (t : Table K V) (bits : ℕ)
      → bits ≤ 64
      → t.shift ≡ 64 - bits
      → length t.shards ≡ 2 ^ bits
      → ((i : ℕ) (s : Shard K V) → get_elem? t.shards i ≡ some s → IsBlank s)
      → IsEmpty t
  blank_shards t bits le shifted sized blank = record {
    valid = record {
      bits = bits;
      bits_le = le;
      shifted = shifted;
      sized = sized;
      shards_valid = λ i s e. (blank i s e).valid;
    };
    unmapped = λ k.
        nothing (get_elem? t.shards (determine_shard t (hk.hash k))) k
          (blank (determine_shard t (hk.hash k)));
    no_entries =
        sum_by-congr Shard.size (λ _. 0) t.shards (λ i s e. (blank i s e).no_entries)
        ∙ sum_by-zero t.shards;
  }
    where
      nothing :
          (o : Option (Shard K V)) (k : K)
          → ((s : Shard K V) → o ≡ some s → IsBlank s)
          → view_at o k ≡ none
      nothing none k h = refl
      nothing (some s) k h = (h s refl).empty k

  -- `clear` leaves a valid map valid, without a key and without entries.
  pub clear_lem : (t : Table K V) → IsValid t → IsEmpty (clear t)
  unfolding clear
  clear_lem t ok =
      blank_shards (clear t) ok.bits ok.bits_le ok.shifted
        (length-map (λ s. (Shard.detach s).1) t.shards ∙ ok.sized)
        λ i s e.
          let (s0, e0, same) = get_elem?-map (λ s. (Shard.detach s).1) t.shards i s e in
          subst IsBlank same (detach_lem s0 (ok.shards_valid i s0 e0)).1

  pub new_parts :
      (capacity amount : ℕ) (t : Table K V)
      → with_shard_amount capacity amount ≡ some t
      → (n : ℕ) × (capacity_per_shard capacity amount ≡ some n)
        × (1 < amount)
        × (is_power_of_two amount ≡ true)
        × (t ≡ record {
          shift = 64 - trailing_zeros amount;
          shards = replicate amount (Shard.new n);
        })
  unfolding with_shard_amount
  new_parts capacity amount t e = elim (Option-cases (capacity_per_shard capacity amount)) [
    | inl over ↦ absurd (ground (arith, e, over))
    | inr (n, fits) ↦
        (n, fits, ground (arith, e, fits), ground (arith, e, fits), ground (arith, e, fits))
  ]

  -- A new map, where the constructor does not panic, is valid, without a key and without entries.
  pub new_lem :
      (capacity shard_amount : ℕ) (t : Table K V)
      → shard_amount < 2 ^ 64
      → with_shard_amount capacity shard_amount ≡ some t
      → IsEmpty t
  new_lem capacity amount t lt e =
      let (n, fits, two, power, eq) = new_parts capacity amount t e in
      let (exact, bits) = power_of_two_lem amount power lt in
      subst IsEmpty (sym eq) (
        blank_shards
          (record { shift = 64 - trailing_zeros amount; shards = replicate amount (Shard.new n) })
          (trailing_zeros amount) (omega (arith, bits)) refl
          (length-replicate amount (Shard.new n) ∙ exact)
          λ i s e'.
            subst IsBlank (eq_of_get_elem?-replicate amount i (Shard.new n) e')
              (new-IsBlank n (capacity_per_shard_lem capacity amount n two fits).0))
