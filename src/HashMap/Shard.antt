-- ===== src/HashMap/Shard.antt =====
-- atomic/hashmap.rs: a shard, an array of buckets with a count. An operation runs under the mutex
-- of its bucket. `none` is a panic: a remainder by zero, or an index outside the array.
pub mod Laws
pub mod Reads
pub mod Homes
use mathlib.Core.Option
use crossync.Prelude.{
  ℕ, ◌+◌, ◌-◌, ◌%◌, ◌^◌, ◌≡◌, ◌<◌, Bool, Option, none, some, List, [], ◌∷◌, ◌++◌, map, ◌==◌,
  if◌then◌else◌, get_elem?, get_or, set, replicate, length, sum_by,
}
use crossync.HashMap.Key.{HashKey}
use crossync.HashMap.Chain.{Entry, Chain, find, contains, modify, replace, unlink}
use crossync.HashMap.Chain.Shape.{Shaped}

pub record Shard {ℓ} (K V : Type ℓ) : Type ℓ where
  pub slots : List (Chain K V)
  pub capacity : ℕ
  pub count : ℕ

-- `fetch_add(1)` and `fetch_sub(n)` on the count
abbrev pub up : ℕ → ℕ
up n = (n + 1) % 2 ^ 64

abbrev pub down : ℕ → ℕ → ℕ
down n by = (n + 2 ^ 64 - by % 2 ^ 64) % 2 ^ 64

module _ {ℓ} {K V : Type ℓ} where
  unfoldable pub new : ℕ → Shard K V
  new capacity = record { slots = replicate capacity []; capacity = capacity; count = 0 }

  -- The bucket of a hash, with its index.
  unfoldable pub get_slot : Shard K V → ℕ → Option (ℕ × Chain K V)
  get_slot s hash =
      if s.capacity == 0
      then none
      else Option.map (λ c. (hash % s.capacity, c)) (get_elem? s.slots (hash % s.capacity))

  -- A bucket that is written back, with a new count.
  abbrev pub put_slot : Shard K V → ℕ → Chain K V → ℕ → Shard K V
  put_slot s i c count = record s { slots = set s.slots i c; count = count }

  unfoldable pub len : Shard K V → ℕ
  len s = s.count

  -- `try_detach` with every bucket locked: each chain is taken, and its length leaves the count.
  detach_slots : List (Chain K V) → ℕ → List (Chain K V) × ℕ
  detach_slots [] count = ([], count)
  detach_slots (c ∷ cs) count =
      let (emptied, left) = detach_slots cs (down count (length c)) in ([] ∷ emptied, left)

  unfoldable pub detach : Shard K V → List (Chain K V) × Shard K V
  unfolding detach_slots
  detach s =
      let (emptied, left) = detach_slots s.slots s.count in
      (s.slots, record s { slots = emptied; count = left })

  -- The entries in the order of `as_vec`.
  unfoldable pub entries : List (Chain K V) → List (K × V)
  entries [] = []
  entries (c ∷ cs) = map (λ e. (e.key, e.value)) c ++ entries cs

  -- What `insert` does with the walk of its bucket.
  place : Shard K V → ℕ → Chain K V → K → V → ℕ → Option (V × Chain K V) → Option V × Shard K V
  place s i c k v hash (some (old, c')) = (some old, put_slot s i c' s.count)
  place s i c k v hash none =
      (none, put_slot s i (record { key = k; value = v; hash = hash } ∷ c) (up s.count))

  -- What `remove` does with the walk of its bucket.
  take_out : Shard K V → ℕ → Option (V × Chain K V) → Option V × Shard K V
  take_out s i (some (old, c')) = (some old, put_slot s i c' (down s.count 1))
  take_out s i none = (none, s)

  -- `get_mut` with a callback on the value.
  change : Shard K V → ℕ → Option (Chain K V) → Bool × Shard K V
  change s i (some c') = (Bool.true, put_slot s i c' s.count)
  change s i none = (Bool.false, s)

module _ {ℓ} {K V : Type ℓ} ⦃hk : HashKey K⦄ where
  unfoldable pub insert : Shard K V → K → V → ℕ → Option (Option V × Shard K V)
  unfolding place
  insert s k v hash =
      Option.map (λ slot. place s slot.0 slot.1 k v hash (replace hash k v slot.1))
        (get_slot s hash)

  unfoldable pub remove : Shard K V → ℕ → K → Option (Option V × Shard K V)
  unfolding take_out
  remove s hash k = Option.map (λ slot. take_out s slot.0 (unlink hash k slot.1)) (get_slot s hash)

  unfoldable pub contains_key : Shard K V → ℕ → K → Option Bool
  contains_key s hash k = Option.map (λ slot. contains hash k slot.1) (get_slot s hash)

  unfoldable pub get : Shard K V → ℕ → K → Option (Option V)
  get s hash k = Option.map (λ slot. find hash k slot.1) (get_slot s hash)

  unfoldable pub with_mut : Shard K V → ℕ → K → (V → V) → Option (Bool × Shard K V)
  unfolding change
  with_mut s hash k f =
      Option.map (λ slot. change s slot.0 (modify hash k f slot.1)) (get_slot s hash)

  -- The shard as a map, and the number of its entries.
  abbrev pub view : Shard K V → K → Option V
  view s k = find (hk.hash k) k (get_or s.slots (hk.hash k % s.capacity) [])

  abbrev pub size : Shard K V → ℕ
  size s = sum_by length s.slots

  pub record IsValid (s : Shard K V) : Type ℓ where
    pub sized : length s.slots ≡ s.capacity
    pub nonempty : 0 < s.capacity
    pub shaped : (i : ℕ) (c : Chain K V) → get_elem? s.slots i ≡ some c → Shaped s.capacity i c
    pub counted : s.count ≡ size s % 2 ^ 64
