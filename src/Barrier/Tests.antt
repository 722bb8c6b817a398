-- ===== src/Barrier/Tests.antt =====
-- sync/barrier.rs: the theorems on concrete barriers.
use crossync.Prelude.{◌≡◌, [], ◌∷◌}
use crossync.Barrier.{returns, sleeps, with_phases, arrivals}
use crossync.Barrier.Phases.{phases_complete}

-- A first phase of three arrivals, and two of two.
phases_complete_example : arrivals 7 (with_phases 3 2) ≡ (
  record { remaining = 2; generation = 3; count = 2; bucket = 2 },
  sleeps 0 ∷ sleeps 0 ∷ returns ∷ sleeps 1 ∷ returns ∷ sleeps 2 ∷ returns ∷ [],
)
phases_complete_example = phases_complete 2 2 1
