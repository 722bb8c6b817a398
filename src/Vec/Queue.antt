-- ===== src/Vec/Queue.antt =====
-- atomic/vec.rs: the calls of an `AtomicVec` on the list of its values.
use crossync.Prelude.{
  ℕ, ◌+◌, ◌≡◌, inl, refl, ap, ◌∙◌, true, false, none, some, List, [], ◌∷◌, arith, length, ◌>>=◌,
}
use native.Mathlib.Decide.{ℕ_discrete}
use crossync.Vec.Memory.{InnerVec, reclaim_retired}
use crossync.Vec.Ends.{new_vec, pop_raw}
use crossync.Vec.Rep.{place_of, Holds}
use crossync.Vec.Pop.{pop_raw-Holds, pop_raw-none}
use crossync.Vec.Reclaim.{reclaim_retired-Holds}
use crossync.Vec.Calls.{logical, len, try_reclaim, settle, pop}

logical-place : (n : ℕ) → logical (place_of n) ≡ n
logical-place n = omega arith

module _ {T : Type 0} where
  -- A vector that is new holds no values.
  pub new_vec-Holds : Holds (new_vec {T = T}) [] 0
  new_vec-Holds = record {
    at = λ k. 1;
    taken = 0;
    dead = [];
    rep = record {
      bound = omega arith;
      head_at = refl;
      tail_at = refl;
      flag = inl refl;
      few = omega arith;
      chain = record {
        ordered = omega arith;
        head_ptr = refl;
        tail_ptr = refl;
        links = λ k lo hi. absurd (omega arith);
        no_more = refl;
        head_reads = refl;
        no_reads = λ k lo hi. refl;
        distinct = λ j k lj hj lk hk ne. absurd (omega arith);
        allocated = λ k lo hi. (omega arith, omega arith);
        cached = λ k lo hi. ground arith;
      };
      spare = record { apart = tt; outside = tt; clean = tt; stack = refl; counted = refl };
      filled = λ i x e. ground (arith, e);
    };
    total = refl;
  }

  -- `len` counts the values.
  pub len_lem : (v : InnerVec T) (xs : List T) (n : ℕ) → Holds v xs n → len v ≡ length xs
  unfolding len
  len_lem v xs n h =
      let r = h.rep in
      ground
        (arith, r.head_at, r.tail_at, logical-place h.taken, logical-place (h.taken + length xs))

  pub try_reclaim-Holds :
      (v : InnerVec T) (xs : List T) (n : ℕ)
      → Holds v xs n
      → (w : InnerVec T) × (try_reclaim v ≡ some w) × Holds w xs n
  try_reclaim-Holds v xs n h = elim (ℕ_discrete v.retired_count 0) [
    | yes e ↦ (v, ground (arith, e), h)
    | no ne ↦
        let (w, done, count, h') = reclaim_retired-Holds v xs n h in
        (w, (let go : try_reclaim v ≡ reclaim_retired v = ground (arith, ne) in go) ∙ done, h')
  ]

  -- `pop` returns the first value, and the others stay.
  pub pop-Holds :
      (v : InnerVec T) (x : T) (xs : List T) (n : ℕ)
      → Holds v (x ∷ xs) n
      → (w : InnerVec T) × (pop v ≡ some (some x, w)) × Holds w xs n
  unfolding pop
  pop-Holds v x xs n h =
      let (reclaim, w, e, h') = pop_raw-Holds v x xs n h in
      elim reclaim
          as (λ b.
            pop_raw v ≡ some (some x, b, w)
            → (w : InnerVec T) × (pop v ≡ some (some x, w)) × Holds w xs n) [
              | true ↦ λ e.
                  let (w', done, h'') = try_reclaim-Holds w xs n h' in
                  (w', ap (λ o. o >>= settle) e ∙ ap (λ o. o >>= λ w'. some (some x, w')) done, h'')
              | false ↦ λ e. (w, ap (λ o. o >>= settle) e, h')
            ]
        e

  -- `pop` of no values returns `None`.
  pub pop-none : (v : InnerVec T) (n : ℕ) → Holds v [] n → pop v ≡ some (none, v)
  unfolding pop
  pop-none v n h = ap (λ o. o >>= settle) (pop_raw-none v n h)
