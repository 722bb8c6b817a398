-- ===== src/Atomic/Calls.antt =====
-- atomic/atomic.rs: the methods of `Atomic<T>` as calls of threads, with the guard that each takes:
-- `read_guard` for `with`, `load` and `load_copy`, and `write_guard` for the others.
use crossync.Prelude.{Bool, Option}
use crossync.Guarded.Lock.{Acquire, shared, exclusive}
use crossync.Guarded.Machine.{Calls}
use crossync.Atomic.Ops.{Outcome, Traits}
use crossync.Atomic.Ops

-- The closures of `with` and `with_mut` return a value of the same type here.
pub data AtomicCall (T : Type 0) : Type 0 where
  with : (T → T) → AtomicCall T
  with_mut : (T → T × T) → AtomicCall T
  replace_with : (T → T) → AtomicCall T
  update : (T → T) → AtomicCall T
  try_update : (T → Bool × T) → AtomicCall T
  load load_copy take_default : AtomicCall T
  store swap swap_copy : T → AtomicCall T
  compare_exchange compare_exchange_weak compare_and_swap : T → T → AtomicCall T
  fetch_update : (T → Option T) → AtomicCall T
  fetch_add fetch_sub fetch_and_bits fetch_or_bits fetch_xor_bits fetch_nand_bits : T → AtomicCall T
  fetch_max fetch_min : T → AtomicCall T

pub data AtomicReply (T : Type 0) : Type 0 where
  done : Unit {0} → AtomicReply T
  value : T → AtomicReply T
  tried : Outcome (Unit {0}) (Unit {0}) → AtomicReply T
  outcome : Outcome T T → AtomicReply T

module _ {T : Type 0} where
  abbrev pub atomic_mode : AtomicCall T → Acquire
  atomic_mode (with _) = shared
  atomic_mode load = shared
  atomic_mode load_copy = shared
  atomic_mode _ = exclusive

module _ {T A : Type 0} where
  -- The result of a method as a reply.
  abbrev as_reply : (A → AtomicReply T) → A × T → AtomicReply T × T
  as_reply f (a, v) = (f a, v)

module _ {T : Type 0} ⦃traits : Traits T⦄ where
  abbrev pub atomic_body : AtomicCall T → T → AtomicReply T × T
  atomic_body (with f) v = as_reply value (Ops.with f v)
  atomic_body (with_mut f) v = as_reply value (Ops.with_mut f v)
  atomic_body (replace_with f) v = as_reply value (Ops.replace_with f v)
  atomic_body (update f) v = as_reply done (Ops.update f v)
  atomic_body (try_update f) v = as_reply tried (Ops.try_update f v)
  atomic_body load v = as_reply value (Ops.load v)
  atomic_body load_copy v = as_reply value (Ops.load_copy v)
  atomic_body take_default v = as_reply value (Ops.take_default v)
  atomic_body (store x) v = as_reply done (Ops.store x v)
  atomic_body (swap x) v = as_reply value (Ops.swap x v)
  atomic_body (swap_copy x) v = as_reply value (Ops.swap_copy x v)
  atomic_body (compare_exchange a b) v = as_reply outcome (Ops.compare_exchange a b v)
  atomic_body (compare_exchange_weak a b) v = as_reply outcome (Ops.compare_exchange_weak a b v)
  atomic_body (compare_and_swap a b) v = as_reply value (Ops.compare_and_swap a b v)
  atomic_body (fetch_update f) v = as_reply outcome (Ops.fetch_update f v)
  atomic_body (fetch_add x) v = as_reply value (Ops.fetch_add x v)
  atomic_body (fetch_sub x) v = as_reply value (Ops.fetch_sub x v)
  atomic_body (fetch_and_bits x) v = as_reply value (Ops.fetch_and_bits x v)
  atomic_body (fetch_or_bits x) v = as_reply value (Ops.fetch_or_bits x v)
  atomic_body (fetch_xor_bits x) v = as_reply value (Ops.fetch_xor_bits x v)
  atomic_body (fetch_nand_bits x) v = as_reply value (Ops.fetch_nand_bits x v)
  atomic_body (fetch_max x) v = as_reply value (Ops.fetch_max x v)
  atomic_body (fetch_min x) v = as_reply value (Ops.fetch_min x v)

module _ (T : Type 0) ⦃traits : Traits T⦄ where
  abbrev pub atomic_calls : Calls
  atomic_calls = record {
    Value = T;
    Reply = AtomicReply T;
    Call = AtomicCall T;
    mode = atomic_mode;
    body = atomic_body;
  }
