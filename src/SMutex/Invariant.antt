-- ===== src/SMutex/Invariant.antt =====
-- core/smutex.rs: what holds of the word, the owner and the recursion in every interleaving.
use crossync.Prelude.{
  ℕ, ◌+◌, ◌≤◌, ◌<◌, ◌≡◌, ◌≢◌, inl, inr, refl, sym, ap, ◌∙◌, arith, false, some, List, get_elem?,
  set, get_elem?-set_cases, sum_by, others, sum_by-others, sum_by-set, w-le-others, sum_by-congr,
  sum_by-zero,
}
use mathlib.Core.Path.{subst, subst₂}
use crossync.Threads.{System, run, run_inv}
use crossync.SMutex.Machine.{SMem, SChoice, STask, rest, smutex_move}
use crossync.SMutex.Moves.{excludes, groups, Knows, Word, step-Word, step-Knows, step-Knows_other}

-- Threads have different ids, and none has the id 0.
pub record Known (ts : List STask) : Type 0 where
  pub positive : (i : ℕ) (t : STask) → get_elem? ts i ≡ some t → 0 < t.id
  pub different :
      (i j : ℕ) (t u : STask)
      → get_elem? ts i ≡ some t
      → get_elem? ts j ≡ some u
      → i ≢ j
      → t.id ≢ u.id

abbrev pub groups_of : STask → ℕ
groups_of t = groups t.stage

abbrev pub excludes_of : STask → ℕ
excludes_of t = excludes t.stage

pub record Guarded (m : SMem) (ts : List STask) : Type 0 where
  pub known : Known ts
  pub word : Word m (sum_by groups_of ts) (sum_by excludes_of ts)
  pub knows : (i : ℕ) (t : STask) → get_elem? ts i ≡ some t → Knows m t.id t.stage

module _ (c : SChoice) (m : SMem) (ts : List STask) (i : ℕ) (t : STask)
    (e : get_elem? ts i ≡ some t) (h : Guarded m ts) where
  abbrev m' : SMem
  m' = (smutex_move c m t).0

  abbrev t' : STask
  t' = (smutex_move c m t).1

  -- A thread keeps its id.
  old :
      (j : ℕ) (u : STask)
      → get_elem? (set ts i t') j ≡ some u
      → (q : STask) × (get_elem? ts j ≡ some q) × (q.id ≡ u.id)
  old j u f = elim (get_elem?-set_cases ts i j t t' u e f) [
    | inl (same, now) ↦ (t, subst (λ k. get_elem? ts k ≡ some t) same e, ap (λ q. q.id) now)
    | inr (ne, was) ↦ (u, was, refl)
  ]

  one_excludes :
      (j : ℕ) (u : STask)
      → i ≢ j
      → get_elem? ts j ≡ some u
      → excludes t.stage + excludes u.stage ≤ 1
  one_excludes j u ne f =
      omega (
        arith,
        h.word.one,
        sum_by-others excludes_of ts i t e,
        w-le-others excludes_of ts i j u ne f,
      )

  pub move-Guarded : Guarded m' (set ts i t')
  move-Guarded = record {
    known = record {
      positive = λ j u f.
          let (q, was, same) = old j u f in subst (λ k. 0 < k) same (h.known.positive j q was);
      different = λ j k u w f g ne eq.
          let (p, was, same) = old j u f in
          let (q, were, alike) = old k w g in
          h.known.different j k p q was were ne (same ∙ eq ∙ sym alike);
    };
    word =
        subst₂ (Word m') (sym (sum_by-set groups_of ts i t t' e))
          (sym (sum_by-set excludes_of ts i t t' e))
          (step-Word c t.id m t.stage (others groups_of ts i) (others excludes_of ts i)
            (h.knows i t e)
            (subst₂ (Word m) (sum_by-others groups_of ts i t e) (sum_by-others excludes_of ts i t e)
              h.word));
    knows = λ j u f. elim (get_elem?-set_cases ts i j t t' u e f) [
      | inl (same, now) ↦
          subst (λ u. Knows m' u.id u.stage) now (step-Knows c t.id m t.stage (h.knows i t e))
      | inr (ne, was) ↦
          step-Knows_other c t.id m t.stage u.id u.stage
            (h.known.different j i u t was e (λ q. ne (sym q))) (one_excludes j u ne was)
            (h.knows i t e) (h.knows j u was)
    ];
  }

abbrev pub smutex_start : List STask → System SMem STask
smutex_start ts = record { mem = record { state = 0; owner = 0; recursion = 0 }; threads = ts }

-- No thread has a guard.
abbrev pub Unheld : List STask → Type 0
Unheld ts = (i : ℕ) (t : STask) → get_elem? ts i ≡ some t → t.stage ≡ rest false 0

pub run-Guarded :
    (ts : List STask) (sched : List (ℕ × SChoice))
    → Known ts
    → Unheld ts
    → Guarded
        (run smutex_move sched (smutex_start ts)).mem
        (run smutex_move sched (smutex_start ts)).threads
run-Guarded ts sched ids free =
    run_inv smutex_move Guarded (λ c m ts i t e h. move-Guarded c m ts i t e h) sched
      (smutex_start ts)
      (record {
        known = ids;
        word = omega (
          arith,
          nothing groups_of (λ t e. ap groups e),
          nothing excludes_of (λ t e. ap excludes e),
        );
        knows = λ i t e.
            subst (Knows (smutex_start ts).mem t.id) (sym (free i t e))
              (new t.id (ids.positive i t e));
      })
  where
    nothing : (w : STask → ℕ) → ((t : STask) → t.stage ≡ rest false 0 → w t ≡ 0) → sum_by w ts ≡ 0
    nothing w none_held =
        sum_by-congr w (λ _. 0) ts (λ i t e. none_held t (free i t e)) ∙ sum_by-zero ts

    new : (id : ℕ) → 0 < id → Knows (smutex_start ts).mem id (rest false 0)
    new id pos = ground (arith, pos)
