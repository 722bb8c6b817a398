-- ===== src/Barrier/Phases.antt =====
-- sync/barrier.rs: the phases of a barrier.
use crossync.Prelude.{
  ℕ, zero, suc, ◌+◌, ◌*◌, ◌%◌, ◌^◌, ◌<◌, ◌≡◌, refl, ap, ◌∙◌, true, false, List, [], ◌∷◌, ◌++◌,
  arith, replicate,
}
use crossync.Barrier.{
  Barrier, Arrival, with_phases, returns, sleeps, next_phase, arrive, release_phase, leaves,
  arrivals,
}

-- How the arrivals of a phase go on: all but the last sleep for its generation.
abbrev pub one_phase : ℕ → ℕ → List Arrival
one_phase n generation = replicate n (sleeps generation) ++ returns ∷ []

-- The same of `m` phases in a row, from a generation on, which wraps.
abbrev pub phases : ℕ → ℕ → ℕ → List Arrival
phases n zero generation = []
phases n (suc m) generation = one_phase n generation ++ phases n m ((generation + 1) % 2 ^ 64)

phase_completes :
    (n : ℕ) (b : Barrier)
    → b.remaining ≡ suc n
    → arrivals (suc n) b ≡ (
      record b { remaining = b.bucket; generation = (b.generation + 1) % 2 ^ 64; count = b.bucket },
      one_phase n b.generation,
    )
unfolding arrivals arrive next_phase
phase_completes zero b h = ground (arith, h)
phase_completes (suc n) b h =
    ground (arith, h, phase_completes n (record b { remaining = suc n; count = suc n }) refl)

arrivals-add :
    (a c : ℕ) (b b' b'' : Barrier) (xs ys : List Arrival)
    → arrivals a b ≡ (b', xs)
    → arrivals c b' ≡ (b'', ys)
    → arrivals (a + c) b ≡ (b'', xs ++ ys)
unfolding arrivals
arrivals-add zero c b b' b'' xs ys e f =
    ap (λ n. arrivals n b) (let z : 0 + c ≡ c = omega arith in z)
    ∙ ap (λ r. arrivals c r.0) e
    ∙ f
    ∙ ap (λ r. (b'', r.1 ++ ys)) e
arrivals-add (suc a) c b b' b'' xs ys e f =
    let (mid, first) = arrive b in
    let rest =
      arrivals-add a c mid (arrivals a mid).0 b'' (arrivals a mid).1 ys refl
        (ap (λ r. arrivals c r.0) e ∙ f) in
    ap (λ n. arrivals n b) (let z : suc a + c ≡ suc (a + c) = omega arith in z)
    ∙ ap (λ r. (r.0, first ∷ r.1)) rest
    ∙ ap (λ r. (b'', r.1 ++ ys)) e

-- A barrier at the start of a phase that is not the first one.
abbrev pub later : ℕ → ℕ → Barrier
later k generation = record {
  remaining = suc k;
  generation = generation;
  count = suc k;
  bucket = suc k;
}

arrivals-later :
    (m k g : ℕ)
    → g < 2 ^ 64
    → arrivals (m * suc k) (later k g) ≡ (later k ((g + m) % 2 ^ 64), phases k m g)
unfolding arrivals
arrivals-later zero k g lt =
    ap (λ n. arrivals n (later k g)) (let e : 0 * suc k ≡ 0 = omega arith in e)
    ∙ ap (λ g. (later k g, [])) (let e : g ≡ (g + 0) % 2 ^ 64 = omega (arith, lt) in e)
arrivals-later (suc m) k g lt =
    ap (λ n. arrivals n (later k g)) (let e : suc m * suc k ≡ suc k + m * suc k = omega arith in e)
    ∙ arrivals-add (suc k) (m * suc k) (later k g) _ _ _ _ (phase_completes k (later k g) refl)
        (arrivals-later m k ((g + 1) % 2 ^ 64) (omega arith))
    ∙ ap (λ h. (later k h, phases k (suc m) g))
        (let e : ((g + 1) % 2 ^ 64 + m) % 2 ^ 64 ≡ (g + suc m) % 2 ^ 64 = omega arith in e)

-- The first `suc n` arrivals and `m` times `suc k` more, at a barrier for `suc n` with the bucket
-- `suc k`, make `m + 1` phases. In each of them all arrivals but the last sleep for the phase's
-- generation, which is the number of phases before it, modulo 2 ^ 64, and the last returns. The
-- barrier then stands at the start of the next phase, of `suc k` arrivals.
pub phases_complete :
    (m n k : ℕ)
    → arrivals (suc n + m * suc k) (with_phases (suc n) (suc k)) ≡ (
      record { remaining = suc k; generation = (m + 1) % 2 ^ 64; count = suc k; bucket = suc k },
      one_phase n 0 ++ phases k m 1,
    )
unfolding with_phases
phases_complete m n k =
    arrivals-add (suc n) (m * suc k) (with_phases (suc n) (suc k)) _ _ _ _
      (phase_completes n (with_phases (suc n) (suc k)) refl) (arrivals-later m k 1 (omega arith))
    ∙ ap (λ h. (later k h, one_phase n 0 ++ phases k m 1))
        (let e : (1 + m) % 2 ^ 64 ≡ (m + 1) % 2 ^ 64 = omega arith in e)

-- Short of the arrivals that a phase needs, every arrival sleeps, and none of the sleepers leaves
-- however often it is woken.
pub phase_blocks :
    (k n : ℕ) (b : Barrier)
    → b.remaining ≡ suc (k + n)
    → ((arrivals k b).1 ≡ replicate k (sleeps b.generation))
      × (leaves (arrivals k b).0 b.generation ≡ false)
      × ((arrivals k b).0.remaining ≡ suc n)
unfolding arrivals arrive leaves
phase_blocks zero n b h = ground (arith, h)
phase_blocks (suc k) n b h =
    ground
      (arith, h, phase_blocks k n (record b { remaining = suc (k + n); count = suc (k + n) }) refl)

-- A thread that sleeps in the present generation leaves once it is woken after the last arrival of
-- the phase, and once it is woken after `release`.
pub sleepers_leave :
    (b : Barrier)
    → b.generation < 2 ^ 64
    → b.remaining ≡ 1
    → (leaves (arrive b).0 b.generation ≡ true) × (leaves (release_phase b) b.generation ≡ true)
unfolding arrive leaves next_phase release_phase
sleepers_leave b lt h = ground (arith, h)

-- A barrier without arrivals left is disabled: any number of arrivals returns, and it stays so.
pub disabled_returns :
    (n : ℕ) (b : Barrier) → b.remaining ≡ 0 → arrivals n b ≡ (b, replicate n returns)
unfolding arrivals arrive
disabled_returns zero b h = refl
disabled_returns (suc n) b h = ground (arith, h, disabled_returns n b h)
