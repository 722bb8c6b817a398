-- ===== src/Vec/Push.antt =====
-- atomic/vec.rs: what `push_internal` does to the list of values.
mod Claimed
use crossync.Prelude.{
  ℕ, ◌+◌, ◌*◌, ◌/◌, ◌%◌, ◌^◌, ◌≤◌, ◌<◌, ◌≡◌, ◌≢◌, ◌⊎◌, inl, inr, refl, sym, ap, ◌∙◌, some, List, [],
  ◌∷◌, ◌++◌, arith, length, length-append, get_elem?, get_elem?-snoc, lt_of_get_elem?,
}
use native.Mathlib.Decide.{ℕ_discrete}
use mathlib.Core.Option.{some-injective}
use mathlib.Core.Path.{subst}
use crossync.Vec.Memory.{VecSlot, InnerVec, acquire_block, set_slot}
use crossync.Vec.Ends.{grow, push_with, push_internal}
use crossync.Vec.Rep.{place_of, Chain, Spare, Filled, Rep, Holds}
use crossync.Vec.Grow.{
  Acquires, acquire_lem, linked, renamed, old_name, link_slots, link-Chain, link-Spare,
}
use crossync.Vec.Frame.{
  Same-Chain, Same-Spare, set_slot-Same, set_slot-other, set_slot_self, indices-Same,
}
use crossync.Vec.Push.Claimed.{Ready, fill, stay}

module _ {T : Type 0} where
  module _ (v : InnerVec T) (xs : List T) (at : ℕ → ℕ) (taken : ℕ) (dead : List ℕ) where
    -- A push of the 31st value of a block.
    module _ (r : Rep v xs at taken dead) (room : taken + length xs < 2 ^ 62)
        (end : (taken + length xs) % 31 ≡ 30) where
      t : ℕ
      t = (v.tail_index + 2) % 2 ^ 64

      claimed : InnerVec T
      claimed = record v { tail_index = t }

      got : ℕ × InnerVec T
      got = acquire_block claimed

      last : ℕ
      last = (taken + length xs) / 31

      acquired : Acquires claimed got.1 at (taken / 31) last (taken % 31) dead got.0
      unfolding claimed got last
      acquired =
          acquire_lem claimed at (taken / 31) last (taken % 31) dead
            (Same-Chain (indices-Same v v.head_index t) r.chain)
            (Same-Spare (indices-Same v v.head_index t) r.spare) claimed.free_list refl

      numbered : t / 2 / 32 ≡ last
      unfolding t last
      numbered = omega (arith, r.tail_at, end)

      names : ℕ → ℕ
      names = renamed got.1 at (taken / 31) last (taken % 31) dead got.0 t numbered acquired.chain

      whole : InnerVec T
      whole = linked got.1 at (taken / 31) last (taken % 31) dead got.0 t numbered acquired.chain

      next_last : last + 1 ≡ (taken + length xs + 1) / 31
      unfolding last
      next_last = omega (arith, end)

      moved : Ready whole xs names taken dead
      unfolding whole names linked claimed last t
      moved = record {
        bound = omega arith;
        head_at = rw acquired.head_kept r.head_at;
        tail_at = omega (arith, r.tail_at, end);
        flag = inr (omega (arith, end));
        few = r.few;
        chain =
            subst (λ l. Chain whole names (taken / 31) l (taken % 31)) next_last
              (link-Chain _ at _ _ _ dead got.0 t numbered acquired.chain acquired.gained);
        spare =
            subst (λ l. Spare whole names (taken / 31) l dead) next_last
              (link-Spare _ at _ _ _ dead got.0 t numbered acquired.chain acquired.gained
                acquired.spare);
        filled = λ i x e.
            let lt = lt_of_get_elem? xs i e in
            let k = (taken + i) / 31 in
            ap (λ p. (whole.heap p).slots ((taken + i) % 31))
              (old_name _ at _ _ _ dead got.0 t numbered acquired.chain k (omega (arith, lt)))
            ∙ link_slots _ at _ _ _ dead got.0 t numbered acquired.chain (at k) ((taken + i) % 31)
            ∙ ap (λ b. b.slots ((taken + i) % 31))
                (acquired.kept k (omega arith) (omega (arith, lt)))
            ∙ r.filled i x e;
      }

      last_name : names last ≡ v.tail_block
      unfolding names last
      last_name =
          old_name _ at _ _ _ dead got.0 t numbered acquired.chain last (omega arith)
          ∙ sym r.chain.tail_ptr

      grown_vec : grow claimed v.tail_block t ≡ whole
      unfolding whole linked claimed got last
      grown_vec = ap (λ b. grow (record v { tail_index = t }) b t) r.chain.tail_ptr

      push_grows :
          (x : T)
          → push_internal v x
            ≡ some (
                set_slot whole
                  (names ((taken + length xs) / 31))
                  ((taken + length xs) % 31)
                  (record { state = 1; value = some x }))
      unfolding push_internal claimed t last
      push_grows x =
          let s : VecSlot T = record { state = 1; value = some x } in
          let at_end : v.tail_index / 2 % 32 ≡ 30 = omega (arith, r.tail_at, end) in
          ap (λ o. push_with v x o v.tail_block) at_end
          ∙ ap (λ g. some (set_slot g v.tail_block 30 s)) grown_vec
          ∙ ap (λ b. some (set_slot whole b 30 s)) (sym last_name)
          ∙ ap (λ o. some (set_slot whole (names last) o s)) (sym end)

    push_with-stays :
        (x : T) (o b : ℕ)
        → o ≢ 30
        → o ≢ 31
        → push_with v x o b
          ≡ some (
              set_slot
                (record v { tail_index = (v.tail_index + 2) % 2 ^ 64 })
                b
                o
                (record { state = 1; value = some x }))
    push_with-stays x o b h k = ground (arith, h, k)

    push_stays :
        (x : T)
        → Rep v xs at taken dead
        → (taken + length xs) % 31 ≢ 30
        → push_internal v x
          ≡ some (
              set_slot
                (record v { tail_index = (v.tail_index + 2) % 2 ^ 64 })
                (at ((taken + length xs) / 31))
                ((taken + length xs) % 31)
                (record { state = 1; value = some x }))
    unfolding push_internal
    push_stays x r ne =
        ap (λ o. push_with v x o v.tail_block) (omega (arith, r.tail_at))
        ∙ ap (push_with v x ((taken + length xs) % 31)) r.chain.tail_ptr
        ∙ push_with-stays x ((taken + length xs) % 31) (at ((taken + length xs) / 31)) ne
            (omega arith)

  -- The values after a push.
  pub push-Rep :
      (v : InnerVec T) (xs : List T) (at : ℕ → ℕ) (taken : ℕ) (dead : List ℕ) (x : T)
      → Rep v xs at taken dead
      → taken + length xs < 2 ^ 62
      → (w : InnerVec T) × (names : ℕ → ℕ) × (push_internal v x ≡ some w)
        × Rep w (xs ++ x ∷ []) names taken dead
  push-Rep v xs at taken dead x r room = elim (ℕ_discrete ((taken + length xs) % 31) 30) [
    | yes end ↦
        let n = names v xs at taken dead r room end in
        let g = whole v xs at taken dead r room end in
        (
          _,
          n,
          push_grows v xs at taken dead r room end x,
          fill g xs n taken dead x (moved v xs at taken dead r room end),
        )
    | no ne ↦ (
      _,
      at,
      push_stays v xs at taken dead x r ne,
      fill _ xs at taken dead x (stay v xs at taken dead r room ne),
    )
  ]

-- With fewer than 2 ^ 62 pushes before, `push_internal` by a thread that is alone returns, and puts
-- the value at the end.
pub push_lem :
    {T : Type 0} (v : InnerVec T) (xs : List T) (n : ℕ) (x : T)
    → Holds v xs n
    → n < 2 ^ 62
    → (w : InnerVec T) × (push_internal v x ≡ some w) × Holds w (xs ++ x ∷ []) (n + 1)
push_lem v xs n x h room =
    let (w, names, done, rep) =
      push-Rep v xs h.at h.taken h.dead x h.rep (omega (arith, h.total)) in
    (
      w,
      done,
      record {
        at = names;
        taken = h.taken;
        dead = h.dead;
        rep = rep;
        total = omega (arith, h.total, length-append xs (x ∷ []));
      },
    )
