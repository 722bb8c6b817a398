-- ===== src/Prelude/Weights.antt =====
-- Sums of a weight over a list, and predicates on all its elements, against a write at one index.
use mathlib.Core.Path.{subst}
use mathlib.Core.Option.{some-injective}
use Prim.Native.Nat.{ℕ, zero, suc, ◌+◌, ◌≤◌, ◌<◌}
use mathlib.Core.Path.{◌≡◌, refl, ap}
use mathlib.Core.Logic.{◌≢◌}
use mathlib.Core.List.{List, [], ◌∷◌, map}
use mathlib.Core.Option.{some}
use native.Mathlib.Omega.{arith}
use crossync.Prelude.Lists.{length, get_elem?, set, replicate, sum_by}

module _ {ℓ} {P : Type ℓ} (w : P → ℕ) where
  sum_by_none :
      (ps : List P) → ((j : ℕ) (p : P) → get_elem? ps j ≡ some p → w p ≡ 0) → sum_by w ps ≡ 0
  sum_by_none [] none_weighs = refl
  sum_by_none (q ∷ ps) none_weighs =
      omega (arith, none_weighs 0 q refl, sum_by_none ps (λ j p e. none_weighs (suc j) p e))

  -- The weight of all threads but the one at index `i`.
  pub others : List P → ℕ → ℕ
  others [] i = 0
  others (p ∷ ps) zero = sum_by w ps
  others (p ∷ ps) (suc i) = w p + others ps i

  pub sum_by-others :
      (ps : List P) (i : ℕ) (p : P) → get_elem? ps i ≡ some p → sum_by w ps ≡ others ps i + w p
  unfolding others
  sum_by-others [] i p e = ground arith
  sum_by-others (q ∷ ps) zero p e = ground arith
  sum_by-others (q ∷ ps) (suc i) p e = omega (arith, sum_by-others ps i p e)

  pub sum_by-set :
      (ps : List P) (i : ℕ) (p q : P)
      → get_elem? ps i ≡ some p
      → sum_by w (set ps i q) ≡ others ps i + w q
  unfolding others
  sum_by-set [] i p q e = ground arith
  sum_by-set (r ∷ ps) zero p q e = omega arith
  sum_by-set (r ∷ ps) (suc i) p q e = omega (arith, sum_by-set ps i p q e)

  pub w-le-others :
      (ps : List P) (i j : ℕ) (p : P) → i ≢ j → get_elem? ps j ≡ some p → w p ≤ others ps i
  unfolding others
  w-le-others [] i j p ne e = ground arith
  w-le-others (q ∷ ps) zero zero p ne e = absurd (ne refl)
  w-le-others (q ∷ ps) zero (suc j) p ne e = omega (arith, sum_by-others ps j p e)
  w-le-others (q ∷ ps) (suc i) zero p ne e = ground arith
  w-le-others (q ∷ ps) (suc i) (suc j) p ne e =
      omega (arith, w-le-others ps i j p (λ h. ne (ap suc h)) e)

  pub others_zero :
      (ps : List P) (i : ℕ)
      → ((j : ℕ) (p : P) → i ≢ j → get_elem? ps j ≡ some p → w p ≡ 0)
      → others ps i ≡ 0
  unfolding others
  others_zero [] i none_weighs = refl
  others_zero (q ∷ ps) zero none_weighs =
      sum_by_none ps (λ j p e. none_weighs (suc j) p (λ z. absurd (omega (arith, z))) e)
  others_zero (q ∷ ps) (suc i) none_weighs = omega (
    arith,
    none_weighs 0 q (λ z. absurd (omega (arith, z))) refl,
    others_zero ps i (λ j p ne e. none_weighs (suc j) p (λ s. absurd (ne (omega (arith, s)))) e),
  )

  pub sum_by-replicate : (n : ℕ) (p : P) → w p ≡ 0 → sum_by w (replicate n p) ≡ 0
  sum_by-replicate zero p h = refl
  sum_by-replicate (suc n) p h = omega (arith, h, sum_by-replicate n p h)

module _ {ℓ} {P : Type ℓ} (w : P → ℕ) (small : (p : P) → w p ≤ 1) where
  sum_by-le-length : (ps : List P) → sum_by w ps ≤ length ps
  sum_by-le-length [] = omega arith
  sum_by-le-length (q ∷ ps) = omega (arith, small q, sum_by-le-length ps)

  pub others-lt-length :
      (ps : List P) (i : ℕ) (p : P) → get_elem? ps i ≡ some p → others w ps i < length ps
  unfolding others
  others-lt-length [] i p e = absurd (ground arith)
  others-lt-length (q ∷ ps) zero p e = omega (arith, sum_by-le-length ps)
  others-lt-length (q ∷ ps) (suc i) p e = omega (arith, small q, others-lt-length ps i p e)

abbrev pub All {ℓ κ} : {A : Type ℓ} → (A → Type κ) → List A → Type κ
All K [] = Unit
All K (p ∷ ps) = K p × All K ps

module _ {ℓ κ} {P : Type ℓ} (K : P → Type κ) where
  pub All-get : (ps : List P) (i : ℕ) {p : P} → All K ps → get_elem? ps i ≡ some p → K p
  All-get [] i a e = absurd (ground arith)
  All-get (q ∷ ps) zero {p} a e = subst K (some-injective q p e) a.0
  All-get (q ∷ ps) (suc i) a e = All-get ps i a.1 e

  pub All-set : (ps : List P) (i : ℕ) (q : P) → All K ps → K q → All K (set ps i q)
  All-set [] i q a k = tt
  All-set (p ∷ ps) zero q a k = (k, a.1)
  All-set (p ∷ ps) (suc i) q a k = (a.0, All-set ps i q a.1 k)

  pub All-replicate : (n : ℕ) (p : P) → K p → All K (replicate n p)
  All-replicate zero p k = tt
  All-replicate (suc n) p k = (k, All-replicate n p k)

module _ {ℓ} {P : Type ℓ} where
  pub le-sum_by :
      (w : P → ℕ) (ps : List P) (i : ℕ) (p : P) → get_elem? ps i ≡ some p → w p ≤ sum_by w ps
  le-sum_by w [] i p e = ground arith
  le-sum_by w (q ∷ ps) zero p e = ground arith
  le-sum_by w (q ∷ ps) (suc i) p e = omega (arith, le-sum_by w ps i p e)

  pub sum_by-congr :
      (v w : P → ℕ) (ps : List P)
      → ((i : ℕ) (p : P) → get_elem? ps i ≡ some p → v p ≡ w p)
      → sum_by v ps ≡ sum_by w ps
  sum_by-congr v w [] h = refl
  sum_by-congr v w (q ∷ ps) h =
      omega (arith, h 0 q refl, sum_by-congr v w ps (λ i p e. h (suc i) p e))

  pub sum_by-zero : (ps : List P) → sum_by (λ _. 0) ps ≡ 0
  sum_by-zero [] = refl
  sum_by-zero (q ∷ ps) = omega (arith, sum_by-zero ps)

module _ {ℓ} {P : Type ℓ} (v w : P → ℕ) (below : (p : P) → v p ≤ w p) where
  sum_by_mono : (ps : List P) → sum_by v ps ≤ sum_by w ps
  sum_by_mono [] = omega arith
  sum_by_mono (q ∷ ps) = omega (arith, below q, sum_by_mono ps)

  pub others_mono : (ps : List P) (i : ℕ) → others v ps i ≤ others w ps i
  unfolding others
  others_mono [] i = omega arith
  others_mono (q ∷ ps) zero = sum_by_mono ps
  others_mono (q ∷ ps) (suc i) = omega (arith, below q, others_mono ps i)

module _ {ℓ κ} {A : Type ℓ} {B : Type κ} (f : A → B) where
  pub length-map : (xs : List A) → length (map f xs) ≡ length xs
  length-map [] = refl
  length-map (x ∷ xs) = ap suc (length-map xs)

  pub map-set : (xs : List A) (i : ℕ) (a : A) → map f (set xs i a) ≡ set (map f xs) i (f a)
  map-set [] i a = refl
  map-set (x ∷ xs) zero a = refl
  map-set (x ∷ xs) (suc i) a = ap (λ l. f x ∷ l) (map-set xs i a)

  pub map-get_elem? :
      (xs : List A) (i : ℕ) (a : A) → get_elem? xs i ≡ some a → get_elem? (map f xs) i ≡ some (f a)
  map-get_elem? [] i a e = absurd (ground (arith, e))
  map-get_elem? (x ∷ xs) zero a e = ap (λ b. some (f b)) (some-injective x a e)
  map-get_elem? (x ∷ xs) (suc i) a e = map-get_elem? xs i a e

  pub get_elem?-map :
      (xs : List A) (i : ℕ) (b : B)
      → get_elem? (map f xs) i ≡ some b
      → (a : A) × (get_elem? xs i ≡ some a) × (f a ≡ b)
  get_elem?-map [] i b e = absurd (ground arith)
  get_elem?-map (x ∷ xs) zero b e = (x, refl, some-injective (f x) b e)
  get_elem?-map (x ∷ xs) (suc i) b e = get_elem?-map xs i b e
