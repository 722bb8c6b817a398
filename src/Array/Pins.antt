-- ===== src/Array/Pins.antt =====
-- atomic/array.rs: what one access with the lock does to the counters and to what threads know.
use crossync.Prelude.{ℕ, ◌+◌, ◌^◌, ◌≤◌, ◌<◌, ◌≡◌, arith, Bool, true, false}
use crossync.Array.Storage.{
  Store, Onward, finish, go_on, Work, push_load, push_cas, slow_load, slow_cas, write_value,
  add_len, store_state, get_len, get_head, walk_len, walk_head, walk_next, slot_wait, slot_lock,
  slot_use, slot_unlock, reset_look, swap_storage, swap_head, swap_tail, swap_len, StorageStage,
  working, leaving, reset_leave, store_step,
}

-- The work that takes the lock for itself.
abbrev pub exclusive_work : Work → Bool
exclusive_work (swap_storage _) = true
exclusive_work (swap_head _) = true
exclusive_work (swap_tail _) = true
exclusive_work (swap_len _) = true
exclusive_work _ = false

-- In the middle of an exchange.
abbrev mid_work : Work → ℕ
mid_work (swap_head _) = 1
mid_work (swap_tail _) = 1
mid_work (swap_len _) = 1
mid_work _ = 0

-- A push that has taken its slot and not counted it.
abbrev uncounted_work : Work → ℕ
uncounted_work (write_value _ _) = 1
uncounted_work (add_len _ _) = 1
uncounted_work _ = 0

abbrev pub mid : StorageStage → ℕ
mid (working w) = mid_work w
mid _ = 0

abbrev pub uncounted : StorageStage → ℕ
uncounted (working w) = uncounted_work w
uncounted _ = 0

-- The counters outside an exchange, with `k` slots that are not counted yet.
pub record Settled (m : Store) (k : ℕ) : Type 0 where
  pub first : m.head ≡ 0
  pub counted : m.len + k ≡ m.tail
  pub within : m.tail ≤ m.capacity
  pub machine : m.capacity < 2 ^ 64

-- The storage is the present one, and the target is one of its slots.
abbrev InRange : Store → ℕ → ℕ → Type 0
InRange m storage target = (storage ≡ m.storage) × (target < m.capacity)

abbrev Walks : Store → ℕ → ℕ → Type 0
Walks m head len = (head ≡ 0) × (len ≤ m.capacity)

abbrev Continues : Store → Onward → Type 0
Continues m finish = Unit
Continues m (go_on checked head len index) = Walks m head len

abbrev Builds : Store → ℕ → Type 0
Builds m n = (m.capacity ≡ n) × (n < 2 ^ 64)

-- What a thread with the lock knows.
abbrev pub Knows : Store → Work → Type 0
Knows m (push_load s) = s ≡ m.storage
Knows m (push_cas s tail) = InRange m s tail
Knows m (slow_load s) = s ≡ m.storage
Knows m (slow_cas s tail) = s ≡ m.storage
Knows m (write_value s tail) = InRange m s tail
Knows m (add_len s tail) = InRange m s tail
Knows m (store_state s tail) = InRange m s tail
Knows m (get_len s index) = s ≡ m.storage
Knows m (get_head s index) = s ≡ m.storage
Knows m (walk_len s checked) = s ≡ m.storage
Knows m (walk_head s checked len) = (s ≡ m.storage) × (len ≤ m.capacity)
Knows m (walk_next s checked head len index) = (s ≡ m.storage) × Walks m head len
Knows m (slot_wait s target onward) = InRange m s target × Continues m onward
Knows m (slot_lock s target onward) = InRange m s target × Continues m onward
Knows m (slot_use s target onward) = InRange m s target × Continues m onward
Knows m (slot_unlock s target onward) = InRange m s target × Continues m onward
Knows m (reset_look n) = n < 2 ^ 64
Knows m (swap_storage n) = n < 2 ^ 64
Knows m (swap_head n) = Builds m n
Knows m (swap_tail n) = Builds m n × (m.head ≡ 0)
Knows m (swap_len n) = Builds m n × (m.head ≡ 0) × (m.tail ≡ n)

-- The stage after an access with the lock.
abbrev pub Proceeds : Store → Bool → StorageStage → Type 0
Proceeds m exclusive (working w) = (exclusive_work w ≡ exclusive) × Knows m w
Proceeds m exclusive leaving = Unit
Proceeds m exclusive (reset_leave n) = n < 2 ^ 64
Proceeds m exclusive _ = ⊥

module _ (ready : Bool) (m : Store) (w : Work) where
  pub step-Settled :
      (k : ℕ)
      → Knows m w
      → (exclusive_work w ≡ true → k ≡ 0)
      → (mid_work w ≡ 0 → Settled m (k + uncounted_work w))
      → let (m', s) = store_step ready m w in
        (mid s ≡ 0 → Settled m' (k + uncounted s)) × Proceeds m' (exclusive_work w) s
  unfolding store_step
  step-Settled k h alone settled = ground (arith, h, alone, settled)

  -- What other threads know stays, unless the storage is exchanged.
  pub step-Knows_other :
      (u : Work)
      → exclusive_work w ≡ false
      → exclusive_work u ≡ false
      → Knows m u
      → Knows (store_step ready m w).0 u
  unfolding store_step
  step-Knows_other u shared other h = ground (arith, shared, other, h)
