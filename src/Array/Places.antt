-- ===== src/Array/Places.antt =====
-- atomic/array.rs: where a thread stands with the coordination lock, and what it then knows.
use crossync.Prelude.{◌^◌, ◌<◌, ◌≡◌, refl, inl, arith, Bool, true, not}
use crossync.Guarded.Lock.{shared, try_exclusive, Place, out, inside, Entering, Going}
use crossync.Array.Storage.{
  Store, Work, StorageStage, idle, entering, working, reset_try, reset_enter, reset_leave,
}
use crossync.Array.Storage
use crossync.Array.Pins.{exclusive_work, mid, uncounted, Knows, Proceeds}

-- Where a thread stands with the lock at each stage, and what it knows.
abbrev pub Local : Store → Place → StorageStage → Type 0
Local m p idle = p ≡ out
Local m p (entering call) = Entering shared p
Local m p (working w) = (p ≡ inside (not (exclusive_work w))) × Knows m w
Local m p Storage.leaving = Going p
Local m p (reset_try n) = Entering try_exclusive p × (n < 2 ^ 64)
Local m p (reset_enter n) = Entering shared p × (n < 2 ^ 64)
Local m p (reset_leave n) = Going p × (n < 2 ^ 64)

abbrev pub Weightless : StorageStage → Type 0
Weightless s = (mid s ≡ 0) × (uncounted s ≡ 0)

pub Local-frame :
    (m m' : Store) (p : Place) (s : StorageStage)
    → ((w : Work) → p ≡ inside (not (exclusive_work w)) → s ≡ working w → Knows m w → Knows m' w)
    → Local m p s
    → Local m' p s
Local-frame m m' p idle keeps h = h
Local-frame m m' p (entering call) keeps h = h
Local-frame m m' p (working w) keeps h = (h.0, keeps w h.0 refl h.1)
Local-frame m m' p Storage.leaving keeps h = h
Local-frame m m' p (reset_try n) keeps h = h
Local-frame m m' p (reset_enter n) keeps h = h
Local-frame m m' p (reset_leave n) keeps h = h

pub Proceeds-Local :
    (m : Store) (exclusive : Bool) (p : Place) (s : StorageStage)
    → p ≡ inside (not exclusive)
    → Proceeds m exclusive s
    → Local m p s
Proceeds-Local m exclusive p idle here h = absurd h
Proceeds-Local m exclusive p (entering call) here h = absurd h
Proceeds-Local m exclusive p (working w) here h = (rw (h.0) here, h.1)
Proceeds-Local m exclusive p Storage.leaving here h = inl (_, here)
Proceeds-Local m exclusive p (reset_try n) here h = absurd h
Proceeds-Local m exclusive p (reset_enter n) here h = absurd h
Proceeds-Local m exclusive p (reset_leave n) here h = (inl (_, here), h)

pub Local-mid :
    (m : Store) (p : Place) (s : StorageStage)
    → Local m p s
    → ((its : Bool) → p ≡ inside its → its ≡ true)
    → mid s ≡ 0
Local-mid m p (working w) h shared_only = ground (arith, shared_only (not (exclusive_work w)) h.0)
Local-mid m p s h shared_only = ground arith

pub Local-uncounted :
    (m : Store) (p : Place) (s : StorageStage)
    → Local m p s
    → ((its : Bool) → p ≡ inside its → ⊥)
    → uncounted s ≡ 0
Local-uncounted m p (working w) h outside = absurd (outside (not (exclusive_work w)) h.0)
Local-uncounted m p s h outside = ground arith
