-- ===== src/Guarded/Lock.antt =====
-- sync/guard_lock.rs: what a guard asks of the lock behind it, and what a lock promises of it.
use crossync.Prelude.{ℕ, ◌≡◌, ◌⊎◌, inl, inr, Bool, true, false, some, List, get_elem?, set}

-- The kinds of acquisition.
pub data Acquire : Type 0 where
  shared exclusive try_shared try_exclusive : Acquire

abbrev pub is_read : Acquire → Bool
is_read shared = true
is_read try_shared = true
is_read _ = false

abbrev pub is_try : Acquire → Bool
is_try try_shared = true
is_try try_exclusive = true
is_try _ = false

pub data Request : Type 0 where
  acquire : Acquire → Request
  release : Request
  proceed : Request

-- Where a thread stands with a lock. A thread that failed an assertion is stuck.
pub data Place : Type 0 where
  out : Place
  coming : Acquire → Place
  inside : (read : Bool) → Place
  leaving : Place
  downgrading : Place
  stuck : Place

pub record Lock : Type 1 where
  pub Mem : Type 0
  pub Thread : Type 0
  pub Choice : Type 0
  pub ask : Request → Choice → Choice
  pub move : Choice → Mem → Thread → Mem × Thread
  pub place : Thread → Place

-- The places that a thread can go to.
abbrev pub Follows : Request → Place → Place → Type 0
Follows (acquire a) out p = (p ≡ coming a) ⊎ ((p ≡ out) × (is_try a ≡ true))
Follows _ (coming a) p =
    (p ≡ coming a) ⊎ (p ≡ inside (is_read a)) ⊎ (p ≡ stuck) ⊎ ((p ≡ out) × (is_try a ≡ true))
Follows release (inside _) p = p ≡ leaving
Follows _ leaving p = (p ≡ leaving) ⊎ (p ≡ out)
Follows _ stuck p = p ≡ stuck
Follows _ _ p = Unit

-- A thread that has asked for the lock, and one that gives it up.
abbrev pub Entering : Acquire → Place → Type 0
Entering a p =
    (p ≡ coming a) ⊎ (p ≡ inside (is_read a)) ⊎ (p ≡ stuck) ⊎ ((p ≡ out) × (is_try a ≡ true))

abbrev pub Going : Place → Type 0
Going p = ((r : Bool) × (p ≡ inside r)) ⊎ (p ≡ leaving) ⊎ (p ≡ out)

pub Follows-Entering : (a : Acquire) (p : Place) → Follows (acquire a) out p → Entering a p
Follows-Entering a p (inl came) = inl came
Follows-Entering a p (inr failed) = inr (inr (inr failed))

pub record IsLawful (L : Lock) (Inv : L.Mem → List L.Thread → Type 0) : Type 0 where
  pub keeps :
      (c : L.Choice) (m : L.Mem) (ts : List L.Thread) (i : ℕ) (t : L.Thread)
      → get_elem? ts i ≡ some t
      → Inv m ts
      → Inv (L.move c m t).0 (set ts i (L.move c m t).1)
  pub follows :
      (q : Request) (c : L.Choice) (m : L.Mem) (t : L.Thread)
      → Follows q (L.place t) (L.place (L.move (L.ask q c) m t).1)
  -- A thread that is inside for writing is inside alone.
  pub alone :
      (m : L.Mem) (ts : List L.Thread) (i j : ℕ) (p q : L.Thread) (read : Bool)
      → Inv m ts
      → get_elem? ts i ≡ some p
      → get_elem? ts j ≡ some q
      → L.place p ≡ inside false
      → L.place q ≡ inside read
      → i ≡ j
