-- ===== src/Threads.antt =====
-- Interleavings: threads as a list of program counters over one memory, and a schedule that says
-- which thread moves next and how the environment chooses for it.
use mathlib.Core.Path.{subst, subst₂}
use crossync.Prelude.{
  ℕ, zero, suc, ◌+◌, ◌≡◌, sym, ap, List, [], ◌∷◌, none, some, get_elem?, set, sum_by, Option-cases,
  inl, inr, others, sum_by-others, sum_by-set, All, All-get, All-set, others-lt-length, length,
  length-set, ◌∙◌, ◌≤◌, ◌<◌, arith,
}

pub record System {ℓ} (M P : Type ℓ) : Type ℓ where
  pub mem : M
  pub threads : List P

module _ {ℓ} {C M P : Type ℓ} (move : C → M → P → M × P) where
  -- Thread `i` makes its next access to shared memory. An index that names no thread is skipped.
  abbrev pub turn : ℕ → C → System M P → System M P
  turn i c s = elim (get_elem? s.threads i) [
    | none ↦ s
    | some p ↦ let (m, q) = move c s.mem p in record { mem = m; threads = set s.threads i q }
  ]

  abbrev pub run : List (ℕ × C) → System M P → System M P
  run [] s = s
  run ((i, c) ∷ rest) s = run rest (turn i c s)

  -- One thread by itself, for a number of accesses.
  abbrev pub solo : ℕ → C → M × P → M × P
  solo zero c s = s
  solo (suc n) c (m, p) = solo n c (move c m p)

  pub solo-step :
      (n : ℕ) (c : C) (m : M) (p : P) {s : M × P}
      → move c m p ≡ s
      → solo (suc n) c (m, p) ≡ solo n c s
  solo-step n c m p e = ap (solo n c) e

  module _ {κ} (I : M → List P → Type κ) where
    -- What every move of a thread keeps, a turn keeps.
    turn_inv :
        ((c : C) (m : M) (ps : List P) (i : ℕ) (p : P)
          → get_elem? ps i ≡ some p
          → I m ps
          → I (move c m p).0 (set ps i (move c m p).1))
        → (i : ℕ) (c : C) (s : System M P) → I s.mem s.threads
        → I (turn i c s).mem (turn i c s).threads
    turn_inv keep i c s h = elim (Option-cases (get_elem? s.threads i)) [
      | inl gone ↦ rw (gone, turn) h
      | inr (p, e) ↦ rw (e, turn) (keep c s.mem s.threads i p e h)
    ]

    -- What every move of a thread keeps holds after every schedule.
    pub run_inv :
        ((c : C) (m : M) (ps : List P) (i : ℕ) (p : P)
          → get_elem? ps i ≡ some p
          → I m ps
          → I (move c m p).0 (set ps i (move c m p).1))
        → (sched : List (ℕ × C)) (s : System M P) → I s.mem s.threads
        → I (run sched s).mem (run sched s).threads
    run_inv keep [] s h = h
    run_inv keep ((i, c) ∷ rest) s h = run_inv keep rest (turn i c s) (turn_inv keep i c s h)

  -- The same for what also depends on the number of turns.
  module _ {κ} (I : ℕ → M → List P → Type κ) where
    counted_turn :
        ((k : ℕ) (c : C) (m : M) (ps : List P) (i : ℕ) (p : P)
          → get_elem? ps i ≡ some p
          → I k m ps
          → I (suc k) (move c m p).0 (set ps i (move c m p).1))
        → ((k : ℕ) (m : M) (ps : List P) → I k m ps → I (suc k) m ps)
        → (k i : ℕ) (c : C) (s : System M P) → I k s.mem s.threads
        → I (suc k) (turn i c s).mem (turn i c s).threads
    counted_turn keep skip k i c s h = elim (Option-cases (get_elem? s.threads i)) [
      | inl gone ↦ rw (gone, turn) (skip k s.mem s.threads h)
      | inr (p, e) ↦ rw (e, turn) (keep k c s.mem s.threads i p e h)
    ]

    pub run_inv_counted :
        ((k : ℕ) (c : C) (m : M) (ps : List P) (i : ℕ) (p : P)
          → get_elem? ps i ≡ some p
          → I k m ps
          → I (suc k) (move c m p).0 (set ps i (move c m p).1))
        → ((k : ℕ) (m : M) (ps : List P) → I k m ps → I (suc k) m ps)
        → (k : ℕ) (sched : List (ℕ × C)) (s : System M P) → I k s.mem s.threads
        → I (k + length sched) (run sched s).mem (run sched s).threads
    run_inv_counted keep skip k [] s h = subst (λ n. I n s.mem s.threads) (omega arith) h
    run_inv_counted keep skip k ((i, c) ∷ rest) s h =
        subst (λ n. I n (run rest (turn i c s)).mem (run rest (turn i c s)).threads) (omega arith)
          (run_inv_counted keep skip (suc k) rest (turn i c s) (counted_turn keep skip k i c s h))

-- Two weights over the threads, and what each thread's locals satisfy: it is enough to look at one
-- move of one thread, whatever the other threads weigh.
module _ {ℓ κ} {C M P : Type ℓ} (move : C → M → P → M × P) (K : P → Type κ) (v w : P → ℕ)
    (A : M → ℕ → ℕ → Type κ) where
  pub record Census (m : M) (ps : List P) : Type κ where
    pub agrees : A m (sum_by v ps) (sum_by w ps)
    pub knows : All K ps

  pub move-Census :
      ((c : C) (m : M) (p : P) → K p → K (move c m p).1)
      → ((c : C) (m : M) (p : P) (r s : ℕ)
          → K p
          → A m (r + v p) (s + w p)
          → A (move c m p).0 (r + v (move c m p).1) (s + w (move c m p).1))
      → (c : C) (m : M) (ps : List P) (i : ℕ) (p : P) → get_elem? ps i ≡ some p
      → Census m ps
      → Census (move c m p).0 (set ps i (move c m p).1)
  move-Census learn keep c m ps i p e h = record {
    agrees =
        subst₂ (A (move c m p).0) (sym (sum_by-set v ps i p (move c m p).1 e))
          (sym (sum_by-set w ps i p (move c m p).1 e))
          (keep c m p (others v ps i) (others w ps i) (All-get K ps i h.knows e)
            (subst₂ (A m) (sum_by-others v ps i p e) (sum_by-others w ps i p e) h.agrees));
    knows = All-set K ps i (move c m p).1 h.knows (learn c m p (All-get K ps i h.knows e));
  }

  pub run-Census :
      ((c : C) (m : M) (p : P) → K p → K (move c m p).1)
      → ((c : C) (m : M) (p : P) (r s : ℕ)
          → K p
          → A m (r + v p) (s + w p)
          → A (move c m p).0 (r + v (move c m p).1) (s + w (move c m p).1))
      → (sched : List (ℕ × C)) (s : System M P) → Census s.mem s.threads
      → Census (run move sched s).mem (run move sched s).threads
  run-Census learn keep = run_inv move Census (move-Census learn keep)

  -- The same for a fixed number of threads, none of which weighs more than one in `v`: the others
  -- weigh less than there are threads.
  record Manned (n : ℕ) (m : M) (ps : List P) : Type κ where
    pub census : Census m ps
    pub manned : length ps ≡ n

  pub run-Census_within :
      (n : ℕ)
      → ((p : P) → v p ≤ 1)
      → ((c : C) (m : M) (p : P) → K p → K (move c m p).1)
      → ((c : C) (m : M) (p : P) (r s : ℕ)
          → r < n
          → K p
          → A m (r + v p) (s + w p)
          → A (move c m p).0 (r + v (move c m p).1) (s + w (move c m p).1))
      → (sched : List (ℕ × C)) (s : System M P) → length s.threads ≡ n
      → Census s.mem s.threads
      → Census (run move sched s).mem (run move sched s).threads
  run-Census_within n light learn keep sched s size h =
      (run_inv move (Manned n)
        (λ c m ps i p e h. record {
          census = record {
            agrees =
                subst₂ (A (move c m p).0) (sym (sum_by-set v ps i p (move c m p).1 e))
                  (sym (sum_by-set w ps i p (move c m p).1 e))
                  (keep c m p (others v ps i) (others w ps i)
                    (omega (arith, others-lt-length v light ps i p e, h.manned))
                    (All-get K ps i h.census.knows e)
                    (subst₂ (A m) (sum_by-others v ps i p e) (sum_by-others w ps i p e)
                      h.census.agrees));
            knows =
                All-set K ps i (move c m p).1 h.census.knows
                  (learn c m p (All-get K ps i h.census.knows e));
          };
          manned = length-set ps i (move c m p).1 ∙ h.manned;
        })
        sched s (record { census = h; manned = size })).census
