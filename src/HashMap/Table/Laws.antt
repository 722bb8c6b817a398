-- ===== src/HashMap/Table/Laws.antt =====
-- atomic/hashmap.rs: the public methods of `AtomicHashMap` against the map that the table stands for.
use mathlib.Core.Path.{subst}
use mathlib.Core.Option.{some-injective}
use native.Mathlib.Decide.{ℕ_discrete}
use crossync.Prelude.{
  ℕ, ◌+◌, ◌*◌, ◌%◌, ◌^◌, ◌<◌, ◌≡◌, ◌≢◌, ◌∙◌, sym, ap, Bool-cases, inl, inr, false, Option, some,
  arith, if◌then◌else◌, get_elem?, set, length, get_elem?-of_lt, get_elem?-set_ne,
  get_elem?-set_self, lt_of_get_elem?, length-set, sum_by-others, sum_by-set,
}
use crossync.Usize.{high_bits_lt}
use crossync.HashMap.Key.{HashKey}
use crossync.HashMap.Shard
use crossync.HashMap.Shard.{Shard}
use crossync.HashMap.Shard.Laws.{Updates}
use crossync.HashMap.Table.{
  Table, determine_shard, shard_of, on_shard, put_shard, view, size, IsValid,
}

module _ {ℓ} {K V : Type ℓ} ⦃hk : HashKey K⦄ where
  -- `determine_shard` stays inside the array of shards, whatever the hash.
  pub determine_shard-lt :
      (t : Table K V) (hash : ℕ) → IsValid t → determine_shard t hash < length t.shards
  unfolding determine_shard
  determine_shard-lt t hash ok =
      rw (ok.shifted, ok.sized)
        (high_bits_lt ok.bits (hash * 2 ^ 7 % 2 ^ 64) ok.bits_le (omega arith))

  pub shard_of-lem :
      (t : Table K V) (hash : ℕ)
      → IsValid t
      → (s : Shard K V) × (shard_of t hash ≡ some (determine_shard t hash, s))
        × (get_elem? t.shards (determine_shard t hash) ≡ some s)
        × Shard.IsValid s
  unfolding shard_of
  shard_of-lem t hash ok =
      let (s, e) =
        get_elem?-of_lt t.shards (determine_shard t hash) (determine_shard-lt t hash ok) in
      (s, rw e, e, ok.shards_valid (determine_shard t hash) s e)

  -- Keys in different shards are not the same.
  distinct :
      (t : Table K V) (k j : K)
      → determine_shard t (hk.hash k) ≢ determine_shard t (hk.hash j)
      → hk.same k j ≡ false
  distinct t k j ne = elim (Bool-cases (hk.same k j)) [
    | inl t' ↦ absurd (ne (ap (determine_shard t) (hk.hash-same k j t')))
    | inr f ↦ f
  ]

  -- What an operation on key `k` that leaves `w` there has done to the table.
  pub record Sets (t : Table K V) (k : K) (w : Option V) (t' : Table K V) : Type ℓ where
    pub valid : IsValid t'
    pub looked_up : (j : K) → view t' j ≡ (if hk.same k j then w else view t j)

  put_shard-Sets :
      (t : Table K V) (k : K) (w : Option V) (s s' : Shard K V)
      → IsValid t
      → get_elem? t.shards (determine_shard t (hk.hash k)) ≡ some s
      → Updates s k w s'
      → Sets t k w (put_shard t (determine_shard t (hk.hash k)) s')
  unfolding determine_shard
  put_shard-Sets t k w s s' ok e u = record {
    valid = record {
      bits = ok.bits;
      bits_le = ok.bits_le;
      shifted = ok.shifted;
      sized = length-set t.shards i s' ∙ ok.sized;
      shards_valid = λ j d q. elim (ℕ_discrete i j) [
        | yes here ↦ subst Shard.IsValid (some-injective s' d (sym (read j here) ∙ q)) u.valid
        | no other ↦ ok.shards_valid j d (sym (get_elem?-set_ne t.shards i j s' other) ∙ q)
      ];
    };
    looked_up = λ j. elim (ℕ_discrete i (determine_shard t (hk.hash j))) [
      | yes here ↦ rw (read (determine_shard t (hk.hash j)) here, ← here, e) (u.looked_up j)
      | no other ↦ rw (
        distinct t k j other,
        get_elem?-set_ne t.shards i (determine_shard t (hk.hash j)) s' other,
      )
    ];
  }
    where
      i : ℕ
      i = determine_shard t (hk.hash k)

      read : (j : ℕ) → i ≡ j → get_elem? (set t.shards i s') j ≡ some s'
      read j here =
          subst (λ x. get_elem? (set t.shards i s') x ≡ some s') here
            (get_elem?-set_self t.shards i s' (lt_of_get_elem? t.shards i e))

  size-put_shard :
      (t : Table K V) (i : ℕ) (s s' : Shard K V)
      → get_elem? t.shards i ≡ some s
      → size (put_shard t i s') + Shard.size s ≡ size t + Shard.size s'
  size-put_shard t i s s' e =
      omega
        (arith, sum_by-others Shard.size t.shards i s e, sum_by-set Shard.size t.shards i s s' e)

  -- An operation on one shard, lifted to the table: its result `r` and the value `w` that it leaves
  -- depend on what the key had, and `a` and `b` say how the number of entries changes.
  pub on_shard_lem {κ} :
      {R : Type κ} (t : Table K V) (k : K) (f : Shard K V → Option (R × Shard K V))
      (r : Option V → R) (w : Option V → Option V) (a : ℕ) (b : Option V → ℕ)
      → ((s : Shard K V)
          → Shard.IsValid s
          → (out : R × Shard K V) × (f s ≡ some out)
            × (out.0 ≡ r (Shard.view s k))
            × Updates s k (w (Shard.view s k)) out.1
            × (Shard.size out.1 + a ≡ Shard.size s + b (Shard.view s k)))
      → IsValid t
      → (out : R × Table K V) × (on_shard t (hk.hash k) f ≡ some out)
        × (out.0 ≡ r (view t k))
        × Sets t k (w (view t k)) out.1
        × (size out.1 + a ≡ size t + b (view t k))
  unfolding on_shard
  on_shard_lem t k f r w a b law ok =
      let (s, found, e, sv) = shard_of-lem t (hk.hash k) ok in
      let (out, done, result, upd, sz) = law s sv in
      let i = determine_shard t (hk.hash k) in
      let here : view t k ≡ Shard.view s k = rw e in
      (
        (out.0, put_shard t i out.1),
        rw (found, done),
        rw here result,
        rw here (put_shard-Sets t k (w (Shard.view s k)) s out.1 ok e upd),
        rw here (omega (arith, sz, size-put_shard t i s out.1 e)),
      )
