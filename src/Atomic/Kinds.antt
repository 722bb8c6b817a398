-- ===== src/Atomic/Kinds.antt =====
-- atomic/atomic.rs: the methods of `Atomic<bool>`, `Atomic<Vec<T>>` and `Atomic<Option<T>>`. A
-- vector is a list.
use crossync.Prelude.{
  ℕ, Bool, true, false, not, ◌&&◌, ◌||◌, if◌then◌else◌, Option, none, some, List, [], ◌∷◌, ◌++◌,
  length,
}
use crossync.Atomic.Ops.{with, with_mut, update}

abbrev pub fetch_and : Bool → Bool → Bool × Bool
fetch_and val old = (old, old && val)

abbrev pub fetch_or : Bool → Bool → Bool × Bool
fetch_or val old = (old, old || val)

-- `old != val`
abbrev pub fetch_xor : Bool → Bool → Bool × Bool
fetch_xor val old = (old, if old then not val else val)

abbrev pub fetch_nand : Bool → Bool → Bool × Bool
fetch_nand val old = (old, not (old && val))

module _ {T : Type 0} where
  -- `Vec::pop`
  abbrev pub pop_last : List T → Option T × List T
  pop_last [] = (none, [])
  pop_last (x ∷ []) = (some x, [])
  pop_last (x ∷ y ∷ xs) = let (last, front) = pop_last (y ∷ xs) in (last, x ∷ front)

  abbrev pub push : T → List T → Unit {0} × List T
  push value vec = update (λ vec. vec ++ value ∷ []) vec

  abbrev pub pop : List T → Option T × List T
  pop vec = with_mut pop_last vec

  abbrev pub vec_len : List T → ℕ × List T
  vec_len vec = with length vec

  abbrev empty : List T → Bool
  empty [] = true
  empty (x ∷ xs) = false

  abbrev pub is_empty : List T → Bool × List T
  is_empty vec = with empty vec

  abbrev pub clear : List T → Unit {0} × List T
  clear vec = update (λ _. []) vec

  abbrev pub extend : List T → List T → Unit {0} × List T
  extend iter vec = update (λ vec. vec ++ iter) vec

  abbrev present : Option T → Bool
  present (some _) = true
  present none = false

  abbrev pub is_some : Option T → Bool × Option T
  is_some opt = with present opt

  abbrev pub is_none : Option T → Bool × Option T
  is_none opt = with (λ opt. not (present opt)) opt

  abbrev pub take : Option T → Option T × Option T
  take opt = with_mut (λ opt. (opt, none)) opt

  abbrev pub replace : T → Option T → Option T × Option T
  replace value opt = with_mut (λ opt. (opt, some value)) opt
