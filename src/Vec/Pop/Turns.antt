-- ===== src/Vec/Pop/Turns.antt =====
-- atomic/vec.rs: the turn of `pop_raw` that wins.
use crossync.Prelude.{
  ℕ, ◌+◌, ◌-◌, ◌/◌, ◌%◌, ◌^◌, ◌<◌, ◌≡◌, ◌≢◌, ◌⊎◌, inl, inr, sym, ap, ◌∙◌, false, none, some, List,
  [], ◌∷◌, arith, ◌==◌, if◌then◌else◌, All,
}
use mathlib.Core.Path.{subst}
use crossync.Vec.Memory.{Block, InnerVec, set_slot, set_counters, retire}
use crossync.Vec.Ends.{due, advance, leave, take_value, pop_won, pop_raw}
use crossync.Vec.Rep.{IsClean}

module _ {T : Type 0} where
  -- The slot `o` of the block `b` is read, and the block counts `n` reads.
  abbrev pub read_slot : InnerVec T → ℕ → ℕ → ℕ → InnerVec T
  read_slot v b o n = set_counters (set_slot v b o (record ((v.heap b).slots o) { state = 2 })) b n

  pub read_slot-other :
      (v : InnerVec T) (b o n q : ℕ) → b ≢ q → (read_slot v b o n).heap q ≡ v.heap q
  read_slot-other v b o n q ne = ground (arith, ne)

  pub read_slot-next :
      (v : InnerVec T) (b o n q : ℕ) → ((read_slot v b o n).heap q).next ≡ (v.heap q).next
  read_slot-next v b o n q = ground arith

  pub read_slot-counters : (v : InnerVec T) (b o n : ℕ) → ((read_slot v b o n).heap b).counters ≡ n
  read_slot-counters v b o n = ground arith

  pub read_slot-slots :
      (v : InnerVec T) (b o n q j : ℕ)
      → (b ≢ q) ⊎ (o ≢ j)
      → ((read_slot v b o n).heap q).slots j ≡ (v.heap q).slots j
  read_slot-slots v b o n q j (inl h) = ground (arith, h)
  read_slot-slots v b o n q j (inr h) = ground (arith, h)

  retire-other : (v : InnerVec T) (b q : ℕ) → b ≢ q → (retire v b).heap q ≡ v.heap q
  retire-other v b q ne = ground (arith, ne)

  pub IsClean-kept :
      (g h : ℕ → Block T) (ps : List ℕ)
      → All (λ q. g q ≡ h q) ps
      → All (λ p. IsClean (h p)) ps
      → All (λ p. IsClean (g p)) ps
  IsClean-kept g h [] same k = tt
  IsClean-kept g h (p ∷ ps) same k =
      (subst IsClean (sym same.0) k.0, IsClean-kept g h ps same.1 k.1)

  leave-stays :
      (v : InnerVec T) (b o n : ℕ)
      → (v.heap b).counters ≡ n
      → n < 30
      → leave v b o ≡ (read_slot v b o (n + 1), false)
  leave-stays v b o n e lt = ground (arith, e, lt)

  leave-retires :
      (v : InnerVec T) (b o : ℕ)
      → (v.heap b).counters ≡ 30
      → leave v b o ≡ (retire (read_slot v b o 31) b, due v)
  leave-retires v b o e = ground (arith, e)

  take_value_lem :
      (v : InnerVec T) (b o : ℕ) (x : T)
      → (v.heap b).slots o ≡ record { state = 1; value = some x }
      → take_value v b o ((v.heap b).slots o)
        ≡ (let (left, reclaim) = leave v b o in some (some x, reclaim, left))
  take_value_lem v b o x e = ap (take_value v b o) e

  -- A compare-exchange that is won inside a block, and at its end.
  pub pop_won-inside :
      (v : InnerVec T) (b o head : ℕ) (x : T)
      → (v.heap b).slots o ≡ record { state = 1; value = some x }
      → (v.heap b).counters ≡ o
      → o < 30
      → pop_won v b o head
        ≡ some (some x, false, read_slot (record v { head_index = head }) b o (o + 1))
  unfolding pop_won
  pop_won-inside v b o head x full count lt =
      let claimed : InnerVec T = record v { head_index = head } in
      let inside : pop_won v b o head ≡ take_value claimed b o ((v.heap b).slots o) =
        ground (arith, lt) in
      inside
      ∙ take_value_lem claimed b o x full
      ∙ ap (λ l. let (left, reclaim) = l in some (some x, reclaim, left))
          (leave-stays claimed b o o count lt)

  pub pop_won-end :
      (v moved : InnerVec T) (b head : ℕ) (x : T)
      → advance (record v { head_index = head }) b head ≡ some moved
      → (moved.heap b).slots 30 ≡ record { state = 1; value = some x }
      → (moved.heap b).counters ≡ 30
      → pop_won v b 30 head ≡ some (some x, due moved, retire (read_slot moved b 30 31) b)
  unfolding pop_won
  pop_won-end v moved b head x on full count =
      ap (λ a. elim a [ none ↦ none | some m ↦ take_value m b 30 ((m.heap b).slots 30) ]) on
      ∙ take_value_lem moved b 30 x full
      ∙ ap (λ l. let (left, reclaim) = l in some (some x, reclaim, left))
          (leave-retires moved b 30 count)

  -- The bit that the head gets in a new block.
  abbrev pub mark : InnerVec T → ℕ → ℕ
  mark v next = if (v.heap next).next == 0 then 0 else 1

  pub advance_lem :
      (v : InnerVec T) (b head next : ℕ)
      → (v.heap b).next ≡ next
      → 0 < next
      → advance v b head
        ≡ some (record v {
          head_index = (head - head % 2 + 2) % 2 ^ 64 + mark v next;
          head_block = next;
        })
  advance_lem v b head next e pos = ground (arith, e, pos)

  module _ (v : InnerVec T) (inside : v.head_index / 2 % 32 ≢ 31) (block : 0 < v.head_block)
      (small : v.head_index + 3 < 2 ^ 64) where
    pub pop_raw-marked :
        v.head_index % 2 ≡ 1
        → pop_raw v ≡ pop_won v v.head_block (v.head_index / 2 % 32) (v.head_index + 2)
    unfolding pop_raw
    pop_raw-marked odd = ground (arith, inside, block, small, odd)

    pub pop_raw-unmarked :
        (m : ℕ)
        → v.head_index % 2 ≡ 0
        → v.head_index / 2 ≢ v.tail_index / 2
        → m ≡ (if v.head_index / 2 / 32 == v.tail_index / 2 / 32 then 0 else 1)
        → pop_raw v ≡ pop_won v v.head_block (v.head_index / 2 % 32) (v.head_index + 2 + m)
    unfolding pop_raw
    pop_raw-unmarked m even ne e = ground (arith, inside, block, small, even, ne, e)
