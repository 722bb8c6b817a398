-- ===== src/HashMap/Table.antt =====
-- atomic/hashmap.rs: `AtomicHashMap`, an array of shards; the high bits of `hash << 7` choose the
-- shard. An operation runs in the shared phase of its shard and under the mutex of one bucket, and
-- `clear` in the exclusive phase of one shard after another. `none` is a panic.
pub mod Laws
pub mod Methods
pub mod Homes
use mathlib.Core.Option
use crossync.Prelude.{
  ℕ, ◌+◌, ◌-◌, ◌*◌, ◌/◌, ◌%◌, ◌^◌, ◌≤◌, ◌<◌, ◌≡◌, Bool, not, Option, none, some, List, [], ◌∷◌,
  ◌++◌, map, ltb, ◌==◌, if◌then◌else◌, get_elem?, set, replicate, length, sum_by,
}
use crossync.Usize.{is_power_of_two, trailing_zeros}
use crossync.HashMap.Key.{HashKey}
use crossync.HashMap.Shard
use crossync.HashMap.Shard.{Shard}

pub record Table {ℓ} (K V : Type ℓ) : Type ℓ where
  pub shift : ℕ
  pub shards : List (Shard K V)

-- `DEFAULT_SHARD_AMOUNT`
abbrev pub default_shard_amount : ℕ
default_shard_amount = 64

-- The capacity of a shard: the whole is rounded up to a multiple of the shards, and 16 is the
-- default. `none` is the panic "map capacity overflow".
unfoldable pub capacity_per_shard : ℕ → ℕ → Option ℕ
capacity_per_shard capacity shard_amount =
    if capacity == 0
    then some 16
    else if ltb (capacity + (shard_amount - 1)) (2 ^ 64)
    then some ((capacity + (shard_amount - 1)) / shard_amount * shard_amount / shard_amount)
    else none

module _ {ℓ} {K V : Type ℓ} where
  -- `with_capacity_hasher_and_shard_amount`, with its assertions.
  unfoldable pub with_shard_amount : ℕ → ℕ → Option (Table K V)
  with_shard_amount capacity shard_amount =
      if not (ltb 1 shard_amount)
      then none
      else if not (is_power_of_two shard_amount)
      then none
      else Option.map
          (λ n. record {
            shift = 64 - trailing_zeros shard_amount;
            shards = replicate shard_amount (Shard.new n);
          })
          (capacity_per_shard capacity shard_amount)

  unfoldable pub determine_shard : Table K V → ℕ → ℕ
  determine_shard t hash = hash * 2 ^ 7 % 2 ^ 64 / 2 ^ t.shift

  -- The shard of a hash, with its index.
  unfoldable pub shard_of : Table K V → ℕ → Option (ℕ × Shard K V)
  shard_of t hash =
      Option.map (λ s. (determine_shard t hash, s)) (get_elem? t.shards (determine_shard t hash))

  abbrev pub put_shard : Table K V → ℕ → Shard K V → Table K V
  put_shard t i s = record t { shards = set t.shards i s }

  -- An operation on the shard of a hash, which is written back.
  unfoldable pub on_shard {κ} :
      {R : Type κ} → Table K V → ℕ → (Shard K V → Option (R × Shard K V)) → Option (R × Table K V)
  unfolding Option.bind
  on_shard t hash f =
      Option.bind (shard_of t hash)
        λ at. Option.map (λ out. (out.0, put_shard t at.0 out.1)) (f at.1)

  unfoldable pub len : Table K V → ℕ
  len t = sum_by Shard.len t.shards % 2 ^ 64

  unfoldable pub is_empty : Table K V → Bool
  is_empty t = len t == 0

  unfoldable pub capacity : Table K V → ℕ
  capacity t = sum_by (λ s. s.capacity) t.shards % 2 ^ 64

  unfoldable pub clear : Table K V → Table K V
  clear t = record t { shards = map (λ s. (Shard.detach s).1) t.shards }

  -- The entries of all shards, as `as_vec` collects them.
  unfoldable pub collect : List (Shard K V) → List (K × V)
  collect [] = []
  collect (s ∷ ss) = Shard.entries s.slots ++ collect ss

  unfoldable pub as_vec : Table K V → List (K × V)
  unfolding collect
  as_vec t = collect t.shards

module _ {ℓ} {K V : Type ℓ} ⦃hk : HashKey K⦄ where
  unfoldable pub insert : Table K V → K → V → Option (Option V × Table K V)
  insert t k v = on_shard t (hk.hash k) λ s. Shard.insert s k v (hk.hash k)

  unfoldable pub remove : Table K V → K → Option (Option V × Table K V)
  remove t k = on_shard t (hk.hash k) λ s. Shard.remove s (hk.hash k) k

  unfoldable pub with_mut : Table K V → K → (V → V) → Option (Bool × Table K V)
  with_mut t k f = on_shard t (hk.hash k) λ s. Shard.with_mut s (hk.hash k) k f

  unfoldable pub get : Table K V → K → Option (Option V)
  get t k = Option.bind (shard_of t (hk.hash k)) λ at. Shard.get at.1 (hk.hash k) k

  unfoldable pub contains_key : Table K V → K → Option Bool
  contains_key t k =
      Option.bind (shard_of t (hk.hash k)) λ at. Shard.contains_key at.1 (hk.hash k) k

  -- The table as a map, and the number of its entries.
  abbrev pub view_at : Option (Shard K V) → K → Option V
  view_at none k = none
  view_at (some s) k = Shard.view s k

  abbrev pub view : Table K V → K → Option V
  view t k = view_at (get_elem? t.shards (determine_shard t (hk.hash k))) k

  abbrev pub size : Table K V → ℕ
  size t = sum_by Shard.size t.shards

  pub record IsValid (t : Table K V) : Type ℓ where
    pub bits : ℕ
    pub bits_le : bits ≤ 64
    pub shifted : t.shift ≡ 64 - bits
    pub sized : length t.shards ≡ 2 ^ bits
    pub shards_valid : (i : ℕ) (s : Shard K V) → get_elem? t.shards i ≡ some s → Shard.IsValid s
