-- ===== src/Coord/Lanes.antt =====
-- core/coord.rs: the lanes that `register` gives to threads.
use crossync.Prelude.{
  ℕ, zero, suc, ◌+◌, ◌%◌, ◌^◌, ◌<◌, ◌≡◌, ◌≢◌, refl, sym, ap, ◌∙◌, arith, List, [], ◌∷◌, some,
  length, length-set, get_or, get_or-set_self, get_or-set_ne, get_elem?, set,
}
use native.Mathlib.Decide.{ℕ_discrete}
use mathlib.Core.Option.{some-injective}
use crossync.Coord.Machine.{lanes, register_from, register}

-- What a registration does to the owners of the lanes.
record Registers (id lane : ℕ) (owners owners' : List ℕ) : Type 0 where
  pub size : length owners' ≡ length owners
  pub owned : lane < lanes → get_or owners' lane 0 ≡ id
  pub kept : (l : ℕ) → get_or owners l 0 ≢ 0 → get_or owners' l 0 ≡ get_or owners l 0

register_from-Registers :
    (turns offset id : ℕ) (owners : List ℕ)
    → length owners ≡ lanes
    → Registers id
        (register_from turns offset id owners).0
        owners
        (register_from turns offset id owners).1
unfolding register_from
register_from-Registers zero offset id owners size = record {
  size = refl;
  owned = λ lt. absurd (omega (arith, lt));
  kept = λ l ne. refl;
}
register_from-Registers (suc turns) offset id owners size =
    elim (ℕ_discrete (get_or owners lane 0) 0) [
      | yes free ↦ rw (claims free) (record {
        size = length-set owners lane id;
        owned = λ lt. get_or-set_self owners lane id 0 (omega (arith, lt, size));
        kept = λ l ne.
            get_or-set_ne owners lane l id 0 (λ e. ne (ap (λ k. get_or owners k 0) (sym e) ∙ free));
      })
      | no taken ↦ elim (ℕ_discrete (get_or owners lane 0) id) [
        | yes mine ↦
            rw (has taken mine) (record { size = refl; owned = λ lt. mine; kept = λ l ne. refl })
        | no other ↦
            rw (goes taken other) (register_from-Registers turns (offset + 1) id owners size)
      ]
    ]
  where
    lane : ℕ
    lane = (id + offset) % 2 ^ 64 % lanes

    claims :
        get_or owners lane 0 ≡ 0
        → register_from (suc turns) offset id owners ≡ (lane, set owners lane id)
    claims e = ground (arith, e)

    has :
        get_or owners lane 0 ≢ 0
        → get_or owners lane 0 ≡ id
        → register_from (suc turns) offset id owners ≡ (lane, owners)
    has ne e = ground (arith, ne, e)

    goes :
        get_or owners lane 0 ≢ 0
        → get_or owners lane 0 ≢ id
        → register_from (suc turns) offset id owners ≡ register_from turns (offset + 1) id owners
    goes ne other = ground (arith, ne, other)

-- The threads register in this order: their lanes, and the owners.
abbrev pub register_all : List ℕ → List ℕ → List ℕ × List ℕ
register_all [] owners = ([], owners)
register_all (id ∷ ids) owners =
    let (lane, owners') = register id owners in
    let (more, owners'') = register_all ids owners' in (lane ∷ more, owners'')

register_all-kept :
    (ids owners : List ℕ) (l : ℕ)
    → length owners ≡ lanes
    → get_or owners l 0 ≢ 0
    → get_or (register_all ids owners).1 l 0 ≡ get_or owners l 0
register_all-kept [] owners l size ne = refl
register_all-kept (id ∷ ids) owners l size ne =
    let one = register_from-Registers lanes 0 id owners size in
    register_all-kept ids (register id owners).1 l (one.size ∙ size)
      (λ z. ne (sym (one.kept l ne) ∙ z))
    ∙ one.kept l ne

register_all-owned :
    (ids owners : List ℕ) (i id lane : ℕ)
    → length owners ≡ lanes
    → id ≢ 0
    → get_elem? ids i ≡ some id
    → get_elem? (register_all ids owners).0 i ≡ some lane
    → lane < lanes
    → get_or (register_all ids owners).1 lane 0 ≡ id
register_all-owned [] owners i id lane size pos e f lt = absurd (ground (arith, e))
register_all-owned (a ∷ ids) owners zero id lane size pos e f lt =
    let one = register_from-Registers lanes 0 a owners size in
    let here : (register a owners).0 ≡ lane = some-injective (register a owners).0 lane f in
    let mine : get_or (register a owners).1 lane 0 ≡ a =
      ap (λ l. get_or (register a owners).1 l 0) (sym here) ∙ one.owned (omega (arith, here, lt)) in
    let same : a ≡ id = some-injective a id e in
    register_all-kept ids (register a owners).1 lane (one.size ∙ size)
      (λ z. pos (sym same ∙ sym mine ∙ z))
    ∙ mine
    ∙ same
register_all-owned (a ∷ ids) owners (suc i) id lane size pos e f lt =
    let one = register_from-Registers lanes 0 a owners size in
    register_all-owned ids (register a owners).1 i id lane (one.size ∙ size) pos e f lt

-- Threads of different ids, none of them 0, that register with 64 owners get different lanes, but
-- for the last lane, which they may share.
pub register_all-lane :
    (ids owners : List ℕ) (i j a b k l : ℕ)
    → length owners ≡ lanes
    → get_elem? ids i ≡ some a
    → get_elem? ids j ≡ some b
    → a ≢ 0
    → b ≢ 0
    → a ≢ b
    → get_elem? (register_all ids owners).0 i ≡ some k
    → get_elem? (register_all ids owners).0 j ≡ some l
    → k < lanes
    → k ≢ l
register_all-lane ids owners i j a b k l size ea eb pa pb ne ek el lt = λ same. ne (
    sym (register_all-owned ids owners i a k size pa ea ek lt)
    ∙ ap (λ q. get_or (register_all ids owners).1 q 0) same
    ∙ register_all-owned ids owners j b l size pb eb el (omega (arith, lt, same)))
