-- ===== src/Chunks/Cover.antt =====
-- atomic/array.rs: the chunks cover the indices in order.
use native.Mathlib.Nat.{mod-lt, div-add-mod, suc-mul}
use crossync.Prelude.{
  ℕ, zero, suc, ◌+◌, ◌-◌, ◌*◌, ◌^◌, ◌≤◌, ◌<◌, ◌≡◌, refl, ap, min, List, [], ◌∷◌, arith, length,
}
use native.Mathlib.Decide.{dec_lt, ℕ_discrete}
use crossync.Chunks.{div_ceil, chunks_from, chunk_indices}

-- The chunks follow one another from `start` to `end`, none of them empty or above `size`.
abbrev pub Covers : ℕ → List (ℕ × ℕ) → ℕ → ℕ → Type 0
Covers size [] start end = start ≡ end
Covers size ((a, b) ∷ rest) start end =
    (a ≡ start) × (a < b) × (b ≤ a + size) × Covers size rest b end

chunks_from-end : (fuel len size start : ℕ) → len ≤ start → chunks_from fuel len size start ≡ []
unfolding chunks_from
chunks_from-end zero len size start h = refl
chunks_from-end (suc fuel) len size start h = ground arith

-- One turn of the loop, whose chunk ends at `stop`.
chunks_from-step :
    (fuel len size start stop : ℕ)
    → start < len
    → min (min (start + size) (2 ^ 64 - 1)) len ≡ stop
    → chunks_from (suc fuel) len size start
      ≡ (start, stop) ∷ chunks_from fuel len size (start + size)
unfolding chunks_from
chunks_from-step fuel len size start stop h e = ground (arith, e)

chunks_from-Covers :
    (fuel len size start : ℕ)
    → 0 < size
    → len < 2 ^ 64
    → start < len
    → len ≤ start + fuel
    → Covers size (chunks_from fuel len size start) start len
chunks_from-Covers zero len size start pos small more enough = absurd (omega arith)
chunks_from-Covers (suc fuel) len size start pos small more enough =
    elim (dec_lt (start + size) len) [
      | yes inner ↦ rw (chunks_from-step fuel len size start (start + size) more (ground arith)) (
        refl,
        omega arith,
        omega arith,
        chunks_from-Covers fuel len size (start + size) pos small inner (omega arith),
      )
      | no last ↦
          rw
            (
              chunks_from-step fuel len size start len more (ground arith),
              chunks_from-end fuel len size (start + size) (omega arith),
            )
            (refl, more, omega arith, refl)
    ]

length-chunks_from :
    (fuel len size start q : ℕ)
    → len ≤ start + q * size
    → length (chunks_from fuel len size start) ≤ q
unfolding chunks_from
length-chunks_from zero len size start q h = omega arith
length-chunks_from (suc fuel) len size start zero h = ground arith
length-chunks_from (suc fuel) len size start (suc q) h =
    ground (arith, suc-mul q size, length-chunks_from fuel len size (start + size) q)

enough_chunks : (len n : ℕ) → 0 < n → len ≤ n * div_ceil len n
unfolding div_ceil
enough_chunks len n pos = omega (arith, mod-lt (len + (n - 1)) pos, div-add-mod (len + (n - 1)) n)

chunk_indices-runs :
    (len n : ℕ) → 0 < len → 0 < n → chunk_indices len n ≡ chunks_from len len (div_ceil len n) 0
unfolding chunk_indices
chunk_indices-runs len n some_len some_chunk = ground arith

-- For an array that is not empty and at least one chunk, `chunk_indices` gives at most that many
-- chunks, which cover the indices in order without a gap or an overlap; no chunk is empty, and none
-- is longer than the length divided by the number, rounded up.
pub chunk_indices-Covers :
    (len num_chunks : ℕ)
    → 0 < len
    → 0 < num_chunks
    → len < 2 ^ 64
    → Covers (div_ceil len num_chunks) (chunk_indices len num_chunks) 0 len
      × (length (chunk_indices len num_chunks) ≤ num_chunks)
chunk_indices-Covers len n some_len some_chunk small =
    let pos : 0 < div_ceil len n = elim (ℕ_discrete (div_ceil len n) 0) [
      | yes z ↦ absurd (omega (arith, enough_chunks len n some_chunk, ap (λ d. n * d) z))
      | no nz ↦ omega (arith, nz)
    ] in
    rw (chunk_indices-runs len n some_len some_chunk) (
      chunks_from-Covers len len (div_ceil len n) 0 pos small some_len (omega arith),
      length-chunks_from len len (div_ceil len n) 0 n
          (omega (arith, enough_chunks len n some_chunk)),
    )
