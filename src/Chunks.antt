-- ===== src/Chunks.antt =====
-- atomic/array.rs: `chunk_indices`, which splits the indices of an array for parallel work. The
-- length is a parameter. The loop over `(0..len).step_by(chunk_size)` runs on fuel.
pub mod Cover
mod Tests
use crossync.Prelude.{
  ℕ, zero, suc, ◌+◌, ◌-◌, ◌/◌, ◌^◌, min, Bool, ◌||◌, List, [], ◌∷◌, ltb, ◌==◌, if◌then◌else◌,
}

-- `usize::div_ceil`
unfoldable pub div_ceil : ℕ → ℕ → ℕ
div_ceil len n = (len + (n - 1)) / n

unfoldable pub chunks_from : ℕ → ℕ → ℕ → ℕ → List (ℕ × ℕ)
chunks_from zero len size start = []
chunks_from (suc fuel) len size start =
    let rest = chunks_from fuel len size (start + size) in
    if ltb start len then (start, min (min (start + size) (2 ^ 64 - 1)) len) ∷ rest else []

unfoldable pub chunk_indices : ℕ → ℕ → List (ℕ × ℕ)
chunk_indices len num_chunks =
    if len == 0 || num_chunks == 0 then [] else chunks_from len len (div_ceil len num_chunks) 0
