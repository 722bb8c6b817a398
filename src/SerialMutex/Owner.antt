-- ===== src/SerialMutex/Owner.antt =====
-- core/serial.rs: what the word says of the acquisitions in every interleaving.
use mathlib.Core.Path.{subst}
use crossync.Prelude.{
  sum_by-set, others, All-get, All-set, false, ◌≢◌, sum_by-others, ℕ, ◌+◌, ◌%◌, ◌≤◌, ◌<◌, ◌^◌, ◌≡◌,
  arith, Bool, List, true, false, some, get_elem?, set, sum_by, ◌==◌, if◌then◌else◌, All,
}
use native.Mathlib.Decide.{ℕ_discrete}
use crossync.SerialMutex.Machine.{
  SerialMem, SerialChoice, Stage, Task, idle, holds, slow_cas, slow_park, unlock_read_cas,
  unlock_read_loop, unlock_write_swap, owner_of, grants, slow_branch, release_read, serial_call,
  serial_step,
}

-- What a stage has of the word: 1 for a read and WRITE for a write, up to its release.
abbrev pub share : Stage → ℕ
share (holds true) = 1
share (holds false) = 2 ^ 30
share unlock_read_cas = 1
share (unlock_read_loop _) = 1
share unlock_write_swap = 2 ^ 30
share _ = 0

-- The share of an acquisition of the thread `o`, and nothing for any other.
abbrev pub share_of : ℕ → Task → ℕ
share_of o t = if t.owner == o then share t.stage else 0

-- The word with `r` in the shares of the thread `o`.
pub record Owns (o state r : ℕ) : Type 0 where
  pub shares : r ≡ (if owner_of state == o then state % 2 ^ 31 else 0)
  pub form : state % 2 ^ 31 ≤ 2 ^ 30
  pub free : state % 2 ^ 31 ≡ 0 → state ≡ 0

-- An acquisition has an id, and what it found in the word is still in its locals.
abbrev pub Stands : ℕ → Stage → Type 0
Stands owner (slow_cas read state) = grants owner read state ≡ true
Stands owner (slow_park read state sequence) = state == 0 ≡ false
Stands owner _ = Unit

abbrev pub Identified : Task → Type 0
Identified t = (0 < t.owner) × Stands t.owner t.stage

serial_step-Stands :
    (c : SerialChoice) (owner : ℕ) (m : SerialMem) (s : Stage)
    → Stands owner s
    → Stands owner (serial_step c owner m s).1
unfolding serial_step serial_call slow_branch release_read
serial_step-Stands c owner m idle k = ground arith
serial_step-Stands c owner m (holds read) k = ground arith
serial_step-Stands c owner m s k = ground arith

module _ (c : SerialChoice) (o : ℕ) (m : SerialMem) (r : ℕ) (pos : 0 < o) where
  grant-Owns_self :
      (read : Bool) (state : ℕ)
      → grants o read state ≡ true
      → Owns o m.state (r + 0)
      → Owns o
          (serial_step c o m (slow_cas read state)).0.state
          (r + share (serial_step c o m (slow_cas read state)).1)
  unfolding serial_step
  grant-Owns_self read state k h = ground arith

  park-Owns_self :
      (read : Bool) (state sequence : ℕ)
      → state == 0 ≡ false
      → Owns o m.state (r + 0)
      → Owns o
          (serial_step c o m (slow_park read state sequence)).0.state
          (r + share (serial_step c o m (slow_park read state sequence)).1)
  unfolding serial_step
  park-Owns_self read state sequence k h = ground arith

  release-Owns_self :
      (state : ℕ)
      → Owns o m.state (r + 1)
      → Owns o (release_read c m state).0.state (r + share (release_read c m state).1)
  unfolding release_read
  release-Owns_self state h = ground arith

-- One access of an acquisition of the thread `o`, with `r` in its other shares.
step-Owns_self :
    (c : SerialChoice) (o : ℕ) (m : SerialMem) (s : Stage) (r : ℕ)
    → 0 < o
    → Stands o s
    → Owns o m.state (r + share s)
    → Owns o (serial_step c o m s).0.state (r + share (serial_step c o m s).1)
unfolding serial_step serial_call slow_branch
step-Owns_self c o m (slow_cas read state) r pos k h = grant-Owns_self c o m r pos read state k h
step-Owns_self c o m (slow_park read state sequence) r pos k h =
    park-Owns_self c o m r pos read state sequence k h
step-Owns_self c o m (unlock_read_loop state) r pos k h = release-Owns_self c o m r pos state h
step-Owns_self c o m idle r pos k h = ground arith
step-Owns_self c o m (holds read) r pos k h = ground arith
step-Owns_self c o m s r pos k h = ground arith

module _ (c : SerialChoice) (a o : ℕ) (m : SerialMem) (q r : ℕ) (pa : 0 < a) (po : 0 < o)
    (ne : a ≢ o) where
  grant-Owns_other :
      (read : Bool) (state : ℕ)
      → grants a read state ≡ true
      → Owns o m.state r
      → Owns o (serial_step c a m (slow_cas read state)).0.state r
  unfolding serial_step
  grant-Owns_other read state k h = ground arith

  park-Owns_other :
      (read : Bool) (state sequence : ℕ)
      → state == 0 ≡ false
      → Owns o m.state r
      → Owns o (serial_step c a m (slow_park read state sequence)).0.state r
  unfolding serial_step
  park-Owns_other read state sequence k h = ground arith

  release-Owns_other :
      (state : ℕ)
      → Owns a m.state (q + 1)
      → Owns o m.state r
      → Owns o (release_read c m state).0.state r
  unfolding release_read
  release-Owns_other state g h = ground arith

-- The same access, for a thread `o` of another id.
step-Owns_other :
    (c : SerialChoice) (a o : ℕ) (m : SerialMem) (s : Stage) (q r : ℕ)
    → 0 < a
    → 0 < o
    → a ≢ o
    → Stands a s
    → Owns a m.state (q + share s)
    → Owns o m.state r
    → Owns o (serial_step c a m s).0.state r
unfolding serial_step serial_call slow_branch
step-Owns_other c a o m (slow_cas read state) q r pa po ne k g h =
    grant-Owns_other c a o m q r pa po ne read state k h
step-Owns_other c a o m (slow_park read state sequence) q r pa po ne k g h =
    park-Owns_other c a o m q r pa po ne read state sequence k h
step-Owns_other c a o m (unlock_read_loop state) q r pa po ne k g h =
    release-Owns_other c a o m q r pa po ne state g h
step-Owns_other c a o m idle q r pa po ne k g h = ground arith
step-Owns_other c a o m (holds read) q r pa po ne k g h = ground arith
step-Owns_other c a o m s q r pa po ne k g h = ground arith

-- Every thread's shares, and every acquisition's locals.
pub record Ledger (m : SerialMem) (ts : List Task) : Type 0 where
  pub books : (o : ℕ) → 0 < o → Owns o m.state (sum_by (share_of o) ts)
  pub knows : All Identified ts

share_of_self : (o : ℕ) (s : Stage) → share_of o (record { owner = o; stage = s }) ≡ share s
share_of_self o s = ground arith

share_of_other : (a o : ℕ) (s : Stage) → a ≢ o → share_of o (record { owner = a; stage = s }) ≡ 0
share_of_other a o s ne = ground arith

module _ (c : SerialChoice) (m : SerialMem) (ts : List Task) (i a : ℕ) (s : Stage)
    (e : get_elem? ts i ≡ some (record { owner = a; stage = s })) (h : Ledger m ts) where
  abbrev before : Task
  before = record { owner = a; stage = s }

  abbrev after : Task
  after = record { owner = a; stage = (serial_step c a m s).1 }

  pub known : Identified before
  known = All-get Identified ts i h.knows e

  pub own_book : Owns a m.state (others (share_of a) ts i + share s)
  own_book =
      subst (Owns a m.state)
        (omega (arith, sum_by-others (share_of a) ts i before e, share_of_self a s))
        (h.books a known.0)

  new_book :
      (o : ℕ) → 0 < o → Owns o (serial_step c a m s).0.state (sum_by (share_of o) (set ts i after))
  new_book o pos = elim (ℕ_discrete a o) [
    | yes same ↦
        subst (λ o. Owns o (serial_step c a m s).0.state (sum_by (share_of o) (set ts i after)))
          same
          (subst (Owns a (serial_step c a m s).0.state)
            (omega (
              arith,
              sum_by-set (share_of a) ts i before after e,
              share_of_self a (serial_step c a m s).1,
            ))
            (step-Owns_self c a m s (others (share_of a) ts i) known.0 known.1 own_book))
    | no other ↦
        subst (Owns o (serial_step c a m s).0.state)
          (omega (
            arith,
            sum_by-others (share_of o) ts i before e,
            sum_by-set (share_of o) ts i before after e,
            share_of_other a o s other,
            share_of_other a o (serial_step c a m s).1 other,
          ))
          (step-Owns_other c a o m s (others (share_of a) ts i) (sum_by (share_of o) ts) known.0 pos
            other known.1 own_book (h.books o pos))
  ]

  pub move-Ledger : Ledger (serial_step c a m s).0 (set ts i after)
  move-Ledger = record {
    books = new_book;
    knows = All-set Identified ts i after h.knows (known.0, serial_step-Stands c a m s known.1);
  }
