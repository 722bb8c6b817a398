-- ===== src/Vec/Api.antt =====
-- atomic/vec.rs: the calls of an `AtomicVec`, and the same calls of a list.
use crossync.Prelude.{
  ℕ, ◌+◌, Bool, true, false, Option, none, some, List, [], ◌∷◌, ◌++◌, ◌==◌, if◌then◌else◌, length,
  get_elem?, set, take, drop, erase_idx, ◌>>=◌,
}
use mathlib.Core.List.{reverse}
use crossync.Vec.Memory.{InnerVec}
use crossync.Vec.Ends.{push_internal}
use crossync.Vec.Create.{with_capacity, init_with, from_iter}
use crossync.Vec.Calls.{len, pop, pop_batch, drain, as_vec, reverse_inner, remove_inner, reset_with}
use crossync.Vec.Access.{get_inner, swap}

-- The constructors; `new` is the capacity 0.
pub data VecStart (T : Type 0) : Type 0 where
  sized : ℕ → VecStart T
  filled : List T → VecStart T
  collected : List T → VecStart T

-- The calls, and what they return.
pub data VecCall (T : Type 0) : Type 0 where
  push : T → VecCall T
  pop_one : VecCall T
  pop_some : ℕ → VecCall T
  drain_all : VecCall T
  count : VecCall T
  get_at : ℕ → VecCall T
  swap_at : ℕ → ℕ → VecCall T
  remove_at : ℕ → VecCall T
  reverse_all : VecCall T
  to_vec : VecCall T
  reset_to : List T → VecCall T

pub data VecResult (T : Type 0) : Type 0 where
  done : VecResult T
  value : Option T → VecResult T
  values : List T → VecResult T
  truth : Bool → VecResult T
  size : ℕ → VecResult T

module _ {T : Type 0} where
  abbrev pub start_vec : VecStart T → Option (InnerVec T)
  start_vec (sized cap) = some (with_capacity cap)
  start_vec (filled xs) = init_with xs
  start_vec (collected xs) = from_iter xs

  -- The values of a list that is made alike.
  abbrev pub start_list : VecStart T → List T
  start_list (sized cap) = []
  start_list (filled xs) = xs
  start_list (collected xs) = xs

  abbrev pub call_vec : VecCall T → InnerVec T → Option (VecResult T × InnerVec T)
  call_vec (push x) v = push_internal v x >>= λ w. some (done, w)
  call_vec pop_one v = pop v >>= λ r. some (value r.0, r.1)
  call_vec (pop_some k) v = pop_batch k v >>= λ r. some (values r.0, r.1)
  call_vec drain_all v = drain v >>= λ r. some (values r.0, r.1)
  call_vec count v = some (size (len v), v)
  call_vec (get_at i) v = some (value (get_inner v i), v)
  call_vec (swap_at i j) v = some (truth (swap v i j).0, (swap v i j).1)
  call_vec (remove_at i) v = remove_inner v i >>= λ r. some (value r.0, r.1)
  call_vec reverse_all v = reverse_inner v >>= λ w. some (done, w)
  call_vec to_vec v = as_vec v >>= λ r. some (values r.0, r.1)
  call_vec (reset_to xs) v = reset_with v xs >>= λ r. some (size r.0, r.1)

  abbrev pub call_vecs : List (VecCall T) → InnerVec T → Option (List (VecResult T) × InnerVec T)
  call_vecs [] v = some ([], v)
  call_vecs (c ∷ cs) v = call_vec c v >>= λ r. call_vecs cs r.1 >>= λ s. some (r.0 ∷ s.0, s.1)

  -- The same calls of a list.
  abbrev pop_list : List T → VecResult T × List T
  pop_list [] = (value none, [])
  pop_list (x ∷ xs) = (value (some x), xs)

  abbrev pub swap_found : List T → ℕ → ℕ → Option T → Option T → VecResult T × List T
  swap_found xs i j (some x) (some y) = (truth true, set (set xs i y) j x)
  swap_found xs i j none o = (truth false, xs)
  swap_found xs i j (some x) none = (truth false, xs)

  abbrev pub call_list : VecCall T → List T → VecResult T × List T
  call_list (push x) xs = (done, xs ++ x ∷ [])
  call_list pop_one xs = pop_list xs
  call_list (pop_some k) xs = (values (take k xs), drop k xs)
  call_list drain_all xs = (values xs, [])
  call_list count xs = (size (length xs), xs)
  call_list (get_at i) xs = (value (get_elem? xs i), xs)
  call_list (swap_at i j) xs =
      if i == j then (truth true, xs) else swap_found xs i j (get_elem? xs i) (get_elem? xs j)
  call_list (remove_at i) xs = (value (get_elem? xs i), erase_idx xs i)
  call_list reverse_all xs = (done, reverse xs)
  call_list to_vec xs = (values xs, [])
  call_list (reset_to ys) xs = (size (length ys), ys)

  abbrev pub call_lists : List (VecCall T) → List T → List (VecResult T) × List T
  call_lists [] xs = ([], xs)
  call_lists (c ∷ cs) xs =
      let (r, ys) = call_list c xs in let (rs, zs) = call_lists cs ys in (r ∷ rs, zs)

  -- The pushes that a call makes at most.
  abbrev pub cost : VecCall T → List T → ℕ
  cost (push x) xs = 1
  cost (remove_at i) xs = length xs
  cost reverse_all xs = length xs
  cost (reset_to ys) xs = length ys
  cost c xs = 0

  abbrev pub costs : List (VecCall T) → List T → ℕ
  costs [] xs = 0
  costs (c ∷ cs) xs = cost c xs + costs cs (call_list c xs).1
