-- ===== src/Vec/Push/Claimed.antt =====
-- atomic/vec.rs: the blocks when the tail has moved on, before and after the value is written.
use crossync.Prelude.{
  ℕ, ◌+◌, ◌*◌, ◌/◌, ◌%◌, ◌^◌, ◌≤◌, ◌<◌, ◌≡◌, ◌≢◌, ◌⊎◌, inl, inr, ap, ◌∙◌, some, List, [], ◌∷◌, ◌++◌,
  arith, length, length-append, get_elem?, get_elem?-snoc, lt_of_get_elem?,
}
use native.Mathlib.Decide.{ℕ_discrete}
use mathlib.Core.Option.{some-injective}
use mathlib.Core.Path.{subst}
use crossync.Vec.Memory.{VecSlot, InnerVec, set_slot}
use crossync.Vec.Rep.{place_of, Chain, Spare, Filled, Rep}
use crossync.Vec.Frame.{
  Same-Chain, Same-Spare, set_slot-Same, set_slot-other, set_slot_self, indices-Same,
}

module _ {T : Type 0} where
  -- The tail has moved on, and the value of the push is not in its slot yet.
  pub record Ready (v : InnerVec T) (xs : List T) (at : ℕ → ℕ) (taken : ℕ) (dead : List ℕ)
      : Type 0 where
    pub bound : taken + length xs + 1 ≤ 2 ^ 62
    pub head_at : v.head_index / 2 ≡ place_of taken
    pub tail_at : v.tail_index ≡ place_of (taken + length xs + 1) * 2
    pub flag : (v.head_index % 2 ≡ 0) ⊎ (taken / 31 < (taken + length xs + 1) / 31)
    pub few : length dead ≤ taken / 31
    pub chain : Chain v at (taken / 31) ((taken + length xs + 1) / 31) (taken % 31)
    pub spare : Spare v at (taken / 31) ((taken + length xs + 1) / 31) dead
    pub filled : (i : ℕ) (x : T) → get_elem? xs i ≡ some x → Filled v at (taken + i) x

  module _ (v : InnerVec T) (xs : List T) (at : ℕ → ℕ) (taken : ℕ) (dead : List ℕ) where
    apart :
        (i : ℕ)
        → Ready v xs at taken dead
        → i < length xs
        → (at ((taken + length xs) / 31) ≢ at ((taken + i) / 31))
          ⊎ ((taken + length xs) % 31 ≢ (taken + i) % 31)
    apart i r lt = elim (ℕ_discrete ((taken + length xs) / 31) ((taken + i) / 31)) [
      | yes e ↦ inr (λ m. omega (arith, e, m, lt))
      | no ne ↦ inl (
          r.chain.distinct ((taken + length xs) / 31) ((taken + i) / 31) (omega arith) (omega arith)
            (omega arith) (omega (arith, lt)) ne)
    ]

    pub fill :
        (x : T)
        → Ready v xs at taken dead
        → Rep
            (set_slot v
              (at ((taken + length xs) / 31))
              ((taken + length xs) % 31)
              (record { state = 1; value = some x }))
            (xs ++ x ∷ [])
            at
            taken
            dead
    fill x r = record {
      bound = omega (arith, grown, r.bound);
      head_at = r.head_at;
      tail_at = r.tail_at ∙ ap (λ n. place_of n * 2) total;
      few = r.few;
      flag = subst (λ n. (v.head_index % 2 ≡ 0) ⊎ (taken / 31 < n / 31)) total r.flag;
      chain =
          subst (λ n. Chain w at (taken / 31) (n / 31) (taken % 31)) total
            (Same-Chain (set_slot-Same v b o s) r.chain);
      spare =
          subst (λ n. Spare w at (taken / 31) (n / 31) dead) total
            (Same-Spare (set_slot-Same v b o s) r.spare);
      filled = λ i y e. elim (ℕ_discrete i (length xs)) [
        | yes here ↦ rw here (
            set_slot_self v b o s
            ∙ ap (λ y. record { state = 1; value = some y })
                (some-injective x y (ground (arith, get_elem?-snoc xs x i, here, e))))
        | no ne ↦
            let old : get_elem? xs i ≡ some y = ground (arith, get_elem?-snoc xs x i, ne, e) in
            set_slot-other v b o s (at ((taken + i) / 31)) ((taken + i) % 31)
              (apart i r (lt_of_get_elem? xs i old))
            ∙ r.filled i y old
      ];
    }
      where
        b : ℕ
        b = at ((taken + length xs) / 31)

        o : ℕ
        o = (taken + length xs) % 31

        s : VecSlot T
        s = record { state = 1; value = some x }

        w : InnerVec T
        w = set_slot v b o s

        grown : length (xs ++ x ∷ []) ≡ length xs + 1
        grown = length-append xs (x ∷ [])

        total : taken + length xs + 1 ≡ taken + length (xs ++ x ∷ [])
        total = omega (arith, grown)

    -- A push that stays in its block.
    pub stay :
        Rep v xs at taken dead
        → taken + length xs < 2 ^ 62
        → (taken + length xs) % 31 ≢ 30
        → Ready (record v { tail_index = (v.tail_index + 2) % 2 ^ 64 }) xs at taken dead
    stay r room ne = record {
      bound = omega arith;
      head_at = r.head_at;
      tail_at = omega (arith, r.tail_at);
      flag = ground (arith, r.flag);
      few = r.few;
      chain =
          subst (λ l. Chain w at (taken / 31) l (taken % 31)) same_block
            (Same-Chain (indices-Same v v.head_index t) r.chain);
      spare =
          subst (λ l. Spare w at (taken / 31) l dead) same_block
            (Same-Spare (indices-Same v v.head_index t) r.spare);
      filled = r.filled;
    }
      where
        t : ℕ
        t = (v.tail_index + 2) % 2 ^ 64

        w : InnerVec T
        w = record v { tail_index = t }

        same_block : (taken + length xs) / 31 ≡ (taken + length xs + 1) / 31
        same_block = omega (arith, ne)
