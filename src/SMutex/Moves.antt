-- ===== src/SMutex/Moves.antt =====
-- core/smutex.rs: what one access of one thread does to the word, the owner and the recursion.
use crossync.Prelude.{ℕ, ◌+◌, ◌*◌, ◌^◌, ◌≤◌, ◌<◌, ◌≡◌, ◌≢◌, ◌↔◌, arith, true, false}
use crossync.SMutex.Machine.{
  SMem, SChoice, SStage, rest, lock_owner, lock_recurse, lock_cas, lock_load, lock_wait, set_owner,
  set_recursion, group_owner, group_recurse, group_load, group_loop, group_spin, group_wait,
  unlock_owner, unlock_sub, clear_owner, unlock_store, group_sub, unlock_wake, panicked,
  smutex_call, smutex_step,
}

-- Between the acquisition of the owner's lock and the store that gives it up.
abbrev pub excludes : SStage → ℕ
excludes (rest true _) = 1
excludes (lock_owner true _) = 1
excludes (lock_recurse _) = 1
excludes set_owner = 1
excludes set_recursion = 1
excludes (group_owner true _) = 1
excludes (group_recurse _) = 1
excludes (unlock_owner _ true _) = 1
excludes (unlock_sub _) = 1
excludes clear_owner = 1
excludes unlock_store = 1
excludes _ = 0

-- The owner field names this thread.
abbrev pub named : SStage → ℕ
named set_owner = 0
named unlock_store = 0
named s = excludes s

-- The guards of a group that a thread has.
abbrev pub groups : SStage → ℕ
groups (rest false held) = held
groups (lock_owner false held) = held
groups (lock_cas held) = held
groups (lock_load held) = held
groups (lock_wait held _) = held
groups (group_owner false held) = held
groups (group_load held) = held
groups (group_loop held _) = held
groups (group_spin held) = held
groups (group_wait held) = held
groups (unlock_owner _ false held) = held
groups (group_sub held) = held
groups (unlock_wake held) = held
groups (panicked held) = held
groups _ = 0

-- The locals that are live: the recursion is the number of the owner's guards.
abbrev Deep : SMem → ℕ → Type 0
Deep m held = (0 < held) × (held < 2 ^ 64) × (m.recursion ≡ held)

abbrev More : SMem → ℕ → Type 0
More m held = (0 < held) × (held + 1 < 2 ^ 64) × (m.recursion ≡ held)

abbrev Nested : SMem → SStage → Type 0
Nested m (rest true held) = Deep m held
Nested m (lock_owner true held) = More m held
Nested m (lock_recurse held) = More m held
Nested m (group_owner true held) = More m held
Nested m (group_recurse held) = More m held
Nested m (unlock_owner _ true held) = Deep m held
Nested m (unlock_owner group false held) = (0 < held) × (group ≡ true)
Nested m (unlock_sub held) = Deep m held
Nested m (group_sub held) = 0 < held
Nested m _ = Unit

pub record Knows (m : SMem) (id : ℕ) (s : SStage) : Type 0 where
  pub some_id : 0 < id
  pub owner_exact : (m.owner ≡ id) ↔ (named s ≡ 1)
  pub nested : Nested m s

-- The word with `a` guards of a group and `b` owners.
pub record Word (m : SMem) (a b : ℕ) : Type 0 where
  pub sum : m.state ≡ a * 2 + b
  pub one : b ≤ 1
  pub alone : b ≡ 1 → a ≡ 0
  pub room : a * 2 < 2 ^ 32

module _ (c : SChoice) (id : ℕ) (m : SMem) (s : SStage) where
  pub step-Word :
      (a b : ℕ)
      → Knows m id s
      → Word m (a + groups s) (b + excludes s)
      → Word
          (smutex_step c id m s).0
          (a + groups (smutex_step c id m s).1)
          (b + excludes (smutex_step c id m s).1)
  unfolding smutex_step smutex_call
  step-Word a b k w = ground (arith, k, w)

  pub step-Knows : Knows m id s → Knows (smutex_step c id m s).0 id (smutex_step c id m s).1
  unfolding smutex_step smutex_call
  step-Knows k = ground (arith, k)

  pub step-Knows_other :
      (other : ℕ) (t : SStage)
      → other ≢ id
      → excludes s + excludes t ≤ 1
      → Knows m id s
      → Knows m other t
      → Knows (smutex_step c id m s).0 other t
  unfolding smutex_step smutex_call
  step-Knows_other other t ne one k l = ground (arith, ne, one, k, l)
