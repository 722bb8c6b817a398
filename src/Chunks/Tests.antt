-- ===== src/Chunks/Tests.antt =====
-- atomic/array.rs: ten indices in four chunks.
use crossync.Prelude.{◌≤◌, ◌≡◌, refl, arith, [], ◌∷◌, length}
use crossync.Chunks.{div_ceil, chunks_from, chunk_indices}
use crossync.Chunks.Cover.{Covers, chunk_indices-Covers}

chunk_indices_result : chunk_indices 10 4 ≡ (0, 3) ∷ (3, 6) ∷ (6, 9) ∷ (9, 10) ∷ []
unfolding chunk_indices chunks_from div_ceil
chunk_indices_result = refl

chunk_indices-Covers_example :
    Covers (div_ceil 10 4) (chunk_indices 10 4) 0 10 × (length (chunk_indices 10 4) ≤ 4)
chunk_indices-Covers_example = chunk_indices-Covers 10 4 (omega arith) (omega arith) (omega arith)
