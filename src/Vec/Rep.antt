-- ===== src/Vec/Rep.antt =====
-- atomic/vec.rs: the list of values that the blocks of an `AtomicVec` stand for.
use crossync.Prelude.{
  ℕ, ◌+◌, ◌*◌, ◌/◌, ◌%◌, ◌^◌, ◌≤◌, ◌<◌, ◌≡◌, ◌≢◌, ◌⊎◌, some, List, [], ◌∷◌, ◌++◌, All, get_elem?,
  length,
}
use crossync.Vec.Memory.{Block, InnerVec}

-- An index counts 32 places to a block, of which 31 have a slot: the place of value number `n`.
abbrev pub place_of : ℕ → ℕ
place_of n = n / 31 * 32 + n % 31

-- No number occurs twice.
abbrev pub Distinct : List ℕ → Type 0
Distinct [] = Unit
Distinct (p ∷ ps) = All (λ q. p ≢ q) ps × Distinct ps

module _ {T : Type 0} where
  -- The retired blocks `ps`, from `p` along `next`.
  abbrev pub Stack : (ℕ → Block T) → ℕ → List ℕ → Type 0
  Stack heap p [] = p ≡ 0
  Stack heap p (q ∷ qs) = (p ≡ q) × Stack heap (heap q).next qs

  -- A block in the pool.
  pub record IsClean (b : Block T) : Type 0 where
    pub no_next : b.next ≡ 0
    pub no_reads : b.counters ≡ 0

  -- The blocks in use are `at (first)` to `at (last)`, by their numbers.
  pub record Chain (v : InnerVec T) (at : ℕ → ℕ) (first last reads : ℕ) : Type 0 where
    pub ordered : first ≤ last
    pub head_ptr : v.head_block ≡ at first
    pub tail_ptr : v.tail_block ≡ at last
    pub links : (k : ℕ) → first ≤ k → k < last → (v.heap (at k)).next ≡ at (k + 1)
    pub no_more : (v.heap (at last)).next ≡ 0
    pub head_reads : (v.heap (at first)).counters ≡ reads
    pub no_reads : (k : ℕ) → first < k → k ≤ last → (v.heap (at k)).counters ≡ 0
    pub distinct : (j k : ℕ) → first ≤ j → j ≤ last → first ≤ k → k ≤ last → j ≢ k → at j ≢ at k
    pub allocated : (k : ℕ) → first ≤ k → k ≤ last → (0 < at k) × (at k < v.fresh)
    pub cached :
        (k : ℕ)
        → first ≤ k
        → k ≤ last
        → (v.tags (k % 32) ≢ k) ⊎ (v.ptrs (k % 32) ≡ 0) ⊎ (v.ptrs (k % 32) ≡ at k)

  -- A block outside the chain.
  abbrev pub Outside : InnerVec T → (ℕ → ℕ) → ℕ → ℕ → ℕ → Type 0
  Outside v at first last p = (0 < p) × (p < v.fresh) × ((k : ℕ) → first ≤ k → k ≤ last → at k ≢ p)

  -- The blocks that are retired, `dead`, and those of the pool.
  pub record Spare (v : InnerVec T) (at : ℕ → ℕ) (first last : ℕ) (dead : List ℕ) : Type 0 where
    pub apart : Distinct (dead ++ v.free_list)
    pub outside : All (Outside v at first last) (dead ++ v.free_list)
    pub clean : All (λ p. IsClean (v.heap p)) v.free_list
    pub stack : Stack v.heap v.retired dead
    pub counted : v.retired_count ≡ length dead

  -- The value number `n` is in its slot.
  abbrev pub Filled : InnerVec T → (ℕ → ℕ) → ℕ → T → Type 0
  Filled v at n x = (v.heap (at (n / 31))).slots (n % 31) ≡ record { state = 1; value = some x }

  -- The vector stands for `xs`, after `taken` other values that were pushed and popped.
  pub record Rep (v : InnerVec T) (xs : List T) (at : ℕ → ℕ) (taken : ℕ) (dead : List ℕ)
      : Type 0 where
    pub bound : taken + length xs ≤ 2 ^ 62
    pub head_at : v.head_index / 2 ≡ place_of taken
    pub tail_at : v.tail_index ≡ place_of (taken + length xs) * 2
    pub flag : (v.head_index % 2 ≡ 0) ⊎ (taken / 31 < (taken + length xs) / 31)
    pub few : length dead ≤ taken / 31
    pub chain : Chain v at (taken / 31) ((taken + length xs) / 31) (taken % 31)
    pub spare : Spare v at (taken / 31) ((taken + length xs) / 31) dead
    pub filled : (i : ℕ) (x : T) → get_elem? xs i ≡ some x → Filled v at (taken + i) x

  -- The vector stands for `xs` after `pushed` pushes in all.
  pub record Holds (v : InnerVec T) (xs : List T) (pushed : ℕ) : Type 0 where
    pub at : ℕ → ℕ
    pub taken : ℕ
    pub dead : List ℕ
    pub rep : Rep v xs at taken dead
    pub total : taken + length xs ≡ pushed
