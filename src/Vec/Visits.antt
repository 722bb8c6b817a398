-- ===== src/Vec/Visits.antt =====
-- atomic/vec.rs: the loops over all slots visit the values in their order.
use crossync.Prelude.{
  ℕ, zero, suc, ◌+◌, ◌-◌, ◌*◌, ◌/◌, ◌%◌, ◌≤◌, ◌<◌, min, ◌≡◌, ◌⊎◌, inl, inr, refl, sym, ap, ◌∙◌,
  Option, some, List, [], ◌∷◌, ◌++◌, arith, lt_or_ge, length, get_elem?, take, drop, take-length,
  take-append-drop, length-drop, get_elem?-drop,
}
use mathlib.Core.Path.{subst}
use crossync.Vec.Memory.{VecSlot, Block, InnerVec}
use crossync.Vec.Rep.{place_of, Chain, Filled, Holds}
use crossync.Vec.Scan.{go_on, go_on?, scan_slots, scan_blocks, scan}

module _ {T R B : Type 0} (body : B → VecSlot T → R ⊎ B) where
  -- The loop body on each value of a list.
  abbrev pub visits : B → List T → R ⊎ B
  visits acc [] = inr acc
  visits acc (x ∷ xs) = go_on (λ a. visits a xs) (body acc (record { state = 1; value = some x }))

  visits-append :
      (acc : B) (xs ys : List T) → visits acc (xs ++ ys) ≡ go_on (λ a. visits a ys) (visits acc xs)
  visits-append acc [] ys = refl
  visits-append acc (x ∷ xs) ys =
      elim (body acc (record { state = 1; value = some x }))
        as (λ s.
          go_on (λ a. visits a (xs ++ ys)) s
          ≡ go_on (λ a. visits a ys) (go_on (λ a. visits a xs) s)) [
            | inl r ↦ refl
            | inr a ↦ visits-append a xs ys
          ]

  scan_slots_lem :
      (turns : ℕ) (block : Block T) (offset : ℕ) (acc : B) (ys : List T)
      → turns ≤ length ys
      → ((i : ℕ) (y : T)
          → i < turns
          → get_elem? ys i ≡ some y
          → block.slots (offset + i) ≡ record { state = 1; value = some y })
      → scan_slots body turns block offset acc ≡ visits acc (take turns ys)
  unfolding scan_slots
  scan_slots_lem zero block offset acc ys le full = refl
  scan_slots_lem (suc turns) block offset acc [] le full = absurd (omega (arith, le))
  scan_slots_lem (suc turns) block offset acc (y ∷ ys) le full =
      ap (λ s. go_on (scan_slots body turns block (offset + 1)) (body acc s))
        (subst (λ o. block.slots o ≡ record { state = 1; value = some y }) (omega arith)
          (full 0 y (omega arith) refl))
      ∙ elim (body acc (record { state = 1; value = some y }))
          as (λ s.
            go_on (scan_slots body turns block (offset + 1)) s
            ≡ go_on (λ a. visits a (take turns ys)) s) [
              | inl r ↦ refl
              | inr a ↦
                  scan_slots_lem turns block (offset + 1) a ys (omega (arith, le)) (λ i z lt e.
                    subst (λ o. block.slots o ≡ record { state = 1; value = some z }) (omega arith)
                      (full (suc i) z (omega (arith, lt)) e))
            ]

  -- The loop is over at its end.
  over :
      (fuel : ℕ) (v : InnerVec T) (block start offset end : ℕ) (acc : B)
      → end ≤ start
      → scan_blocks body fuel v block start offset end acc ≡ some (inr acc)
  unfolding scan_blocks
  over zero v block start offset end acc le = ground (arith, le)
  over (suc fuel) v block start offset end acc le = ground (arith, le)

  -- It takes a turn before.
  turn :
      (fuel : ℕ) (v : InnerVec T) (block start offset end : ℕ) (acc : B)
      → start < end
      → 0 < block
      → scan_blocks body (suc fuel) v block start offset end acc
        ≡ go_on?
            (scan_blocks body fuel v (v.heap block).next (start + 32) 0 end)
            (scan_slots body (min (start + 31) end - (start + offset)) (v.heap block) offset acc)
  unfolding scan_blocks
  turn fuel v block start offset end acc lt pos = ground (arith, lt, pos)

  module _ (v : InnerVec T) (at : ℕ → ℕ) (first last reads : ℕ)
      (c : Chain v at first last reads) where
    -- The slots of one block.
    block_lem :
        (k o turns : ℕ) (acc : B) (ys : List T)
        → o + turns ≤ 31
        → turns ≤ length ys
        → ((i : ℕ) (y : T) → get_elem? ys i ≡ some y → Filled v at (k * 31 + o + i) y)
        → scan_slots body turns (v.heap (at k)) o acc ≡ visits acc (take turns ys)
    block_lem k o turns acc ys le within full =
        scan_slots_lem turns (v.heap (at k)) o acc ys within (λ i y lt e.
          subst (λ q. (v.heap (at q)).slots (o + i) ≡ record { state = 1; value = some y })
            (let q : (k * 31 + o + i) / 31 ≡ k = omega arith in q)
            (subst
              (λ p.
                (v.heap (at ((k * 31 + o + i) / 31))).slots p
                ≡ record { state = 1; value = some y })
              (let p : (k * 31 + o + i) % 31 ≡ o + i = omega arith in p) (full i y e)))

    ends :
        (s : R ⊎ B) (next : B → Option (R ⊎ B))
        → ((a : B) → next a ≡ some (inr a))
        → go_on? next s ≡ some s
    ends (inl r) next e = refl
    ends (inr a) next e = e a

    passes :
        (s : R ⊎ B) (next : B → Option (R ⊎ B)) (rest : B → R ⊎ B)
        → ((a : B) → next a ≡ some (rest a))
        → go_on? next s ≡ some (go_on rest s)
    passes (inl r) next rest e = refl
    passes (inr a) next rest e = e a

    blocks_lem :
        (fuel k o : ℕ) (acc : B) (ys : List T)
        → first ≤ k
        → k + fuel ≡ last
        → o < 31
        → (k * 31 + o + length ys) / 31 ≡ last
        → ((i : ℕ) (y : T) → get_elem? ys i ≡ some y → Filled v at (k * 31 + o + i) y)
        → scan_blocks body (suc fuel) v (at k) (k * 32) o (place_of (k * 31 + o + length ys)) acc
          ≡ some (visits acc ys)
    blocks_lem zero k o acc ys lo sum lt end full = elim (lt_or_ge 0 (o + length ys)) [
      | inl more ↦
          turn 0 v (at k) (k * 32) o (place_of (k * 31 + o + length ys)) acc
            (omega (arith, end, sum, more)) (c.allocated k lo (omega (arith, sum))).0
          ∙ ap
              (λ n.
                go_on?
                  (scan_blocks body 0 v (v.heap (at k)).next (k * 32 + 32) 0
                    (place_of (k * 31 + o + length ys)))
                  (scan_slots body n (v.heap (at k)) o acc))
              (let all : min (k * 32 + 31) (place_of (k * 31 + o + length ys)) - (k * 32 + o)
                    ≡ length ys =
                  omega (arith, end, sum) in
                all)
          ∙ ends _ _ (λ a.
            over 0 v (v.heap (at k)).next (k * 32 + 32) 0 (place_of (k * 31 + o + length ys)) a
              (omega (arith, end, sum)))
          ∙ ap some (block_lem k o (length ys) acc ys (omega (arith, end, sum)) (omega arith) full)
          ∙ ap (λ l. some (visits acc l)) (take-length ys)
      | inr none_left ↦
          over 1 v (at k) (k * 32) o (place_of (k * 31 + o + length ys)) acc
            (omega (arith, end, sum, none_left))
          ∙ ap (λ l. some (visits acc l)) (nothing ys (omega (arith, none_left)))
    ]
      where
        nothing : (ys : List T) → length ys ≡ 0 → [] ≡ ys
        nothing [] e = refl
        nothing (y ∷ ys) e = absurd (omega (arith, e))
    blocks_lem (suc fuel) k o acc ys lo sum lt end full =
        turn (suc fuel) v (at k) (k * 32) o (place_of (k * 31 + o + length ys)) acc
          (omega (arith, end, sum)) (c.allocated k lo (omega (arith, sum))).0
        ∙ ap
            (λ n.
              go_on?
                (scan_blocks body (suc fuel) v (v.heap (at k)).next (k * 32 + 32) 0
                  (place_of (k * 31 + o + length ys)))
                (scan_slots body n (v.heap (at k)) o acc))
            (let all : min (k * 32 + 31) (place_of (k * 31 + o + length ys)) - (k * 32 + o)
                  ≡ 31 - o =
                omega (arith, end, sum) in
              all)
        ∙ passes _ _ (λ a. visits a (drop (31 - o) ys))
            (λ a.
              onward a
              ∙ blocks_lem fuel (k + 1) 0 a (drop (31 - o) ys) (omega arith) (omega (arith, sum))
                  (omega arith) (omega (arith, same_total, end)) others)
        ∙ ap (λ s. some (go_on (λ a. visits a (drop (31 - o) ys)) s))
            (block_lem k o (31 - o) acc ys (omega arith) (omega (arith, end, sum)) full)
        ∙ ap some (sym (visits-append acc (take (31 - o) ys) (drop (31 - o) ys)))
        ∙ ap (λ l. some (visits acc l)) (take-append-drop (31 - o) ys)
      where
        others :
            (i : ℕ) (y : T)
            → get_elem? (drop (31 - o) ys) i ≡ some y
            → Filled v at ((k + 1) * 31 + 0 + i) y
        others i y e =
            subst (λ n. Filled v at n y) (omega arith)
              (full (31 - o + i) y (sym (get_elem?-drop (31 - o) ys i) ∙ e))

        same_total : (k + 1) * 31 + 0 + length (drop (31 - o) ys) ≡ k * 31 + o + length ys
        same_total = omega (arith, length-drop (31 - o) ys, end, sum)

        onward :
            (a : B)
            → scan_blocks body
                (suc fuel)
                v
                (v.heap (at k)).next
                (k * 32 + 32)
                0
                (place_of (k * 31 + o + length ys))
                a
              ≡ scan_blocks body
                  (suc fuel)
                  v
                  (at (k + 1))
                  ((k + 1) * 32)
                  0
                  (place_of ((k + 1) * 31 + 0 + length (drop (31 - o) ys)))
                  a
        onward a =
            ap
              (λ b.
                scan_blocks body (suc fuel) v b (k * 32 + 32) 0 (place_of (k * 31 + o + length ys))
                  a)
              (c.links k lo (omega (arith, sum)))
            ∙ ap
                (λ s.
                  scan_blocks body (suc fuel) v (at (k + 1)) s 0 (place_of (k * 31 + o + length ys))
                    a)
                (let s : k * 32 + 32 ≡ (k + 1) * 32 = omega arith in s)
            ∙ ap (λ n. scan_blocks body (suc fuel) v (at (k + 1)) ((k + 1) * 32) 0 (place_of n) a)
                (sym same_total)

  -- The loop of `index_of`, `find`, `for_each`, `fold` and `reduce` visits the values in their order.
  pub scan_lem :
      (v : InnerVec T) (xs : List T) (n : ℕ) (acc : B)
      → Holds v xs n
      → scan body v acc ≡ some (visits acc xs)
  unfolding scan
  scan_lem v xs n acc h =
      let r = h.rep in
      let first : ℕ = h.taken / 31 in
      let last : ℕ = (h.taken + length xs) / 31 in
      let fuel : v.tail_index / 2 / 32 - v.head_index / 2 / 32 + 1 ≡ suc (last - first) =
        omega (arith, r.head_at, r.tail_at) in
      let start : v.head_index / 2 / 32 * 32 ≡ first * 32 = omega (arith, r.head_at) in
      let offset : v.head_index / 2 % 32 ≡ h.taken % 31 = omega (arith, r.head_at) in
      let end : v.tail_index / 2 ≡ place_of (first * 31 + h.taken % 31 + length xs) =
        omega (arith, r.tail_at) in
      ap
        (λ f.
          scan_blocks body f v v.head_block (v.head_index / 2 / 32 * 32) (v.head_index / 2 % 32)
            (v.tail_index / 2) acc)
        fuel
      ∙ ap
          (λ b.
            scan_blocks body (suc (last - first)) v b (v.head_index / 2 / 32 * 32)
              (v.head_index / 2 % 32) (v.tail_index / 2) acc)
          r.chain.head_ptr
      ∙ ap
          (λ s.
            scan_blocks body (suc (last - first)) v (h.at first) s (v.head_index / 2 % 32)
              (v.tail_index / 2) acc)
          start
      ∙ ap
          (λ o.
            scan_blocks body (suc (last - first)) v (h.at first) (first * 32) o (v.tail_index / 2)
              acc)
          offset
      ∙ ap
          (λ e.
            scan_blocks body (suc (last - first)) v (h.at first) (first * 32) (h.taken % 31) e acc)
          end
      ∙ blocks_lem v h.at first last (h.taken % 31) r.chain (last - first) first (h.taken % 31) acc
          xs (omega arith) (omega arith) (omega arith) (omega arith)
          (λ i y e. subst (λ n. Filled v h.at n y) (omega arith) (r.filled i y e))
