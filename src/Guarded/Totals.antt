-- ===== src/Guarded/Totals.antt =====
-- Sums over the calls in a sequential account and over the calls that the threads have made.
use crossync.Prelude.{
  ℕ, zero, suc, ◌+◌, ◌≡◌, ◌<◌, refl, ap, ◌∙◌, arith, ◌==◌, if◌then◌else◌, List, [], ◌∷◌, some,
  get_elem?, length, sum_by, All,
}
use crossync.Guarded.Lock.{Lock}
use crossync.Guarded.Machine.{Calls, Entry, GuardedMem, GuardedTask}
use crossync.Guarded.History.{Event, entries, Explains}

-- The sum of the first values of a function.
abbrev sum_to : ℕ → (ℕ → ℕ) → ℕ
sum_to zero f = 0
sum_to (suc n) f = f 0 + sum_to n (λ i. f (suc i))

sum_to-congr : (n : ℕ) (f g : ℕ → ℕ) → ((i : ℕ) → g i ≡ f i) → sum_to n g ≡ sum_to n f
sum_to-congr zero f g same = refl
sum_to-congr (suc n) f g same =
    omega (arith, same 0, sum_to-congr n (λ i. f (suc i)) (λ i. g (suc i)) (λ i. same (suc i)))

sum_to-zero : (n : ℕ) → sum_to n (λ _. 0) ≡ 0
sum_to-zero zero = refl
sum_to-zero (suc n) = omega (arith, sum_to-zero n)

-- A function that is larger at one place.
sum_to-add :
    (n k a : ℕ) (f g : ℕ → ℕ)
    → k < n
    → ((i : ℕ) → g i ≡ (if k == i then a + f i else f i))
    → sum_to n g ≡ a + sum_to n f
sum_to-add zero k a f g lt at_k = absurd (omega (arith, lt))
sum_to-add (suc n) zero a f g lt at_k = ground (
  arith,
  at_k 0,
  sum_to-congr n (λ i. f (suc i)) (λ i. g (suc i)) (λ i. ground (arith, at_k (suc i))),
)
sum_to-add (suc n) (suc k) a f g lt at_k = ground (
  arith,
  at_k 0,
  sum_to-add n k a (λ i. f (suc i)) (λ i. g (suc i)) (omega (arith, lt))
      (λ i. ground (arith, at_k (suc i))),
)

sum_by-sum_to {ℓ} :
    {P : Type ℓ} (w : P → ℕ) (ps : List P) (f : ℕ → ℕ)
    → ((i : ℕ) (p : P) → get_elem? ps i ≡ some p → w p ≡ f i)
    → sum_by w ps ≡ sum_to (length ps) f
sum_by-sum_to w [] f at = refl
sum_by-sum_to w (p ∷ ps) f at =
    omega (arith, at 0 p refl, sum_by-sum_to w ps (λ i. f (suc i)) (λ i q e. at (suc i) q e))

module _ (K : Calls) (w : K.Call → ℕ) (v₀ : K.Value) (n : ℕ) where
  entries-total :
      (es : List (Event K))
      → All (λ e. e.thread < n) es
      → sum_to n (λ i. sum_by (λ (en : Entry K). w en.0) (entries K es v₀ i))
        ≡ sum_by (λ (e : Event K). w e.call) es
  entries-total [] known = sum_to-zero n
  entries-total (e ∷ es) known =
      sum_to-add n e.thread (w e.call) (λ i. sum_by (λ (en : Entry K). w en.0) (entries K es v₀ i))
        (λ i. sum_by (λ (en : Entry K). w en.0) (entries K (e ∷ es) v₀ i)) known.0
        (λ i. ground arith)
      ∙ ap (λ k. w e.call + k) (entries-total es known.1)

module _ (L : Lock) (K : Calls) (w : K.Call → ℕ) (v₀ : K.Value) where
  -- A weight of calls sums up to the same over the account and over the logs of the threads.
  pub Explains-total :
      (m : GuardedMem L K) (ts : List (GuardedTask L K)) (es : List (Event K))
      → Explains L K v₀ m ts es
      → sum_by (λ (t : GuardedTask L K). sum_by (λ (en : Entry K). w en.0) t.log) ts
        ≡ sum_by (λ (e : Event K). w e.call) es
  Explains-total m ts es h =
      sum_by-sum_to (λ (t : GuardedTask L K). sum_by (λ (en : Entry K). w en.0) t.log) ts
        (λ i. sum_by (λ (en : Entry K). w en.0) (entries K es v₀ i))
        (λ i t e. ap (λ l. sum_by (λ (en : Entry K). w en.0) l) (h.logs_exact i t e))
      ∙ entries-total K w v₀ (length ts) es h.known
