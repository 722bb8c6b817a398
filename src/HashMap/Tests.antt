-- ===== src/HashMap/Tests.antt =====
-- atomic/hashmap.rs: a map from numbers to numbers, and the theorems at inputs that meet their
-- hypotheses.
use crossync.Prelude.{List, ◌∷◌, [], ℕ, ◌+◌, ◌%◌, ◌≡◌, refl, arith, Bool, Option, none, some, ◌==◌}
use mathlib.Core.Option
use crossync.Usize.{is_power_of_two, trailing_zeros}
use crossync.HashMap.Shard
use crossync.HashMap.Key.{HashKey}
use crossync.HashMap.Chain.Walks.{present}
use crossync.HashMap.Shard.Laws.{missing}
use crossync.HashMap.Table.{
  Table, capacity_per_shard, with_shard_amount, insert, remove, with_mut, get, contains_key, as_vec,
  view, size, IsValid,
}
use crossync.HashMap.Table.Laws.{Sets}
use crossync.HashMap.Refinement.{
  MapOp, put, take, alter, look, has, wipe, Answer, call_all, spec_all, call_all_refines,
}
use crossync.HashMap.Listing.{lookup, as_vec_lists}
use crossync.HashMap.Table.Methods.{insert-Sets, remove-Sets, with_mut-Sets, new_lem}

-- Numbers that agree modulo three are the same key.
instance mod3 : HashKey ℕ
mod3 = record {
  same = λ a b. a % 3 == b % 3;
  hash = λ a. a % 3;
  same_refl = λ a. ground arith;
  same_symm = λ a b. ground arith;
  same_trans = λ a b c e f. ground arith;
  hash-same = λ a b e. ground arith;
  hash-lt = λ a. omega arith;
}

abbrev two_shards : Table ℕ ℕ
two_shards = record { shift = 63; shards = Shard.new 4 ∷ Shard.new 4 ∷ [] }

two_shards-IsValid : IsValid two_shards
unfolding with_shard_amount is_power_of_two trailing_zeros capacity_per_shard
two_shards-IsValid = (new_lem 8 2 two_shards (omega arith) refl).valid

insert-Sets_example :
    (out : Option ℕ × Table ℕ ℕ) × (insert two_shards 5 7 ≡ some out)
    × (out.0 ≡ view two_shards 5)
    × Sets two_shards 5 (some 7) out.1
    × (size out.1 ≡ size two_shards + missing (view two_shards 5))
insert-Sets_example = insert-Sets two_shards 5 7 two_shards-IsValid

remove-Sets_example :
    (out : Option ℕ × Table ℕ ℕ) × (remove two_shards 5 ≡ some out)
    × (out.0 ≡ view two_shards 5)
    × Sets two_shards 5 none out.1
    × (size out.1 + 1 ≡ size two_shards + missing (view two_shards 5))
remove-Sets_example = remove-Sets two_shards 5 two_shards-IsValid

with_mut-Sets_example :
    (out : Bool × Table ℕ ℕ) × (with_mut two_shards 5 (λ v. v + 1) ≡ some out)
    × (out.0 ≡ present (view two_shards 5))
    × Sets two_shards 5 (Option.map (λ v. v + 1) (view two_shards 5)) out.1
    × (size out.1 ≡ size two_shards)
with_mut-Sets_example = with_mut-Sets two_shards 5 (λ v. v + 1) two_shards-IsValid

-- Five and eight are the same key, so the second insertion replaces the first value.
abbrev session : List (MapOp ℕ ℕ)
session = put 5 7 ∷ put 8 9 ∷ look 5 ∷ alter 2 (λ v. v + 1) ∷ take 5 ∷ has 8 ∷ wipe ∷ []

call_all_refines_example :
    (out : List (Answer ℕ) × Table ℕ ℕ) × (call_all session two_shards ≡ some out)
    × (out.0 ≡ (spec_all session (view two_shards)).0)
    × (view out.1 ≡ (spec_all session (view two_shards)).1)
    × IsValid out.1
call_all_refines_example = call_all_refines session two_shards two_shards-IsValid

as_vec_lists_example :
    (out : List (Answer ℕ) × Table ℕ ℕ) × (call_all session two_shards ≡ some out)
    × ((k : ℕ)
        → (lookup k (as_vec out.1) ≡ (spec_all session (λ _. none)).1 k)
          × (get out.1 k ≡ some (lookup k (as_vec out.1)))
          × (contains_key out.1 k ≡ some (present (lookup k (as_vec out.1)))))
unfolding with_shard_amount is_power_of_two trailing_zeros capacity_per_shard
as_vec_lists_example = as_vec_lists 8 2 two_shards session (omega arith) refl
