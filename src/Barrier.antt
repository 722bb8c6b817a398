-- ===== src/Barrier.antt =====
-- sync/barrier.rs: `Barrier`. Its state is behind a mutex, so what a call does while it holds the
-- mutex is one step: `arrive` is `wait` up to its first return or its first sleep, and `leaves`
-- the test that a sleeper makes whenever it is woken.
pub mod Phases
mod Tests
use crossync.Prelude.{ℕ, suc, ◌+◌, ◌-◌, ◌%◌, ◌^◌, Bool, not, List, [], ◌∷◌, ◌==◌, if◌then◌else◌}

pub record Barrier : Type 0 where
  pub remaining : ℕ
  pub generation : ℕ
  pub count : ℕ
  pub bucket : ℕ

-- How a call of `wait` goes on: it returns, or it sleeps until its generation is over.
pub data Arrival : Type 0 where
  returns : Arrival
  sleeps : (generation : ℕ) → Arrival

unfoldable pub with_phases : ℕ → ℕ → Barrier
with_phases n bucket = record { remaining = n; generation = 0; count = n; bucket = bucket }

-- The end of a phase: the next one has `bucket` arrivals, and every sleeper is woken.
unfoldable pub next_phase : Barrier → Barrier
next_phase b = record b {
  remaining = b.bucket;
  generation = (b.generation + 1) % 2 ^ 64;
  count = b.bucket;
}

unfoldable pub arrive : Barrier → Barrier × Arrival
arrive b =
    if b.remaining == 0
    then (b, returns)
    else (let left = b.remaining - 1 in
        if left == 0
        then (next_phase b, returns)
        else (record b { remaining = left; count = left }, sleeps b.generation))

-- `release`
unfoldable pub release_phase : Barrier → Barrier
release_phase b = next_phase b

-- The test of the loop in `wait`: a woken sleeper of a generation leaves if that is over.
unfoldable pub leaves : Barrier → ℕ → Bool
leaves b generation = not (b.generation == generation)

-- A number of arrivals, with how each goes on, the first one first.
unfoldable pub arrivals : ℕ → Barrier → Barrier × List Arrival
arrivals ℕ.zero b = (b, [])
arrivals (suc n) b =
    let (b', first) = arrive b in let (last, rest) = arrivals n b' in (last, first ∷ rest)
