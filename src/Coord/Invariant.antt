-- ===== src/Coord/Invariant.antt =====
-- core/coord.rs: what holds of the counts, the flags and the lanes in every interleaving.
use crossync.Prelude.{
  ℕ, ◌+◌, ◌^◌, ◌≤◌, ◌<◌, ◌≡◌, ◌≢◌, inl, inr, refl, sym, ap, ◌∙◌, arith, false, some, List, ◌==◌,
  if◌then◌else◌, length, length-set, get_elem?, set, get_elem?-set_cases, sum_by, others,
  sum_by-others, sum_by-set, le-sum_by, others-lt-length,
}
use native.Mathlib.Decide.{ℕ_discrete}
use mathlib.Core.Path.{subst, subst₂}
use crossync.Coord.Machine.{lanes, CoordMem, CoordOp, CoordStage, CoordTask, coord_move}
use crossync.Coord.Moves.{
  counts, pins, intends, prepares, scanned, Local, Flags, step-count, step-elsewhere, step-Local,
  step-Flags, step-pins, step-scanned, scanned-intends, pins-counts,
}

-- What a thread adds to the count of a lane.
abbrev pub counts_in : ℕ → CoordTask → ℕ
counts_in l t = if t.lane == l then counts t.stage else 0

-- No two threads have one lane below `LANES`.
abbrev pub Placed : List CoordTask → Type 0
Placed ts =
    (i j : ℕ) (t u : CoordTask)
    → get_elem? ts i ≡ some t
    → get_elem? ts j ≡ some u
    → i ≢ j
    → t.lane < lanes
    → t.lane ≢ u.lane

pub record Coordinated (m : CoordMem) (ts : List CoordTask) : Type 0 where
  pub few : length ts < 2 ^ 64
  pub placed : Placed ts
  pub tally : (l : ℕ) → m.readers l ≡ sum_by (counts_in l) ts
  pub flags : Flags m (sum_by (λ t. prepares t.stage) ts) (sum_by (λ t. intends t.stage) ts)
  pub locals : (i : ℕ) (t : CoordTask) → get_elem? ts i ≡ some t → Local m t.lane t.stage
  pub range : (i : ℕ) (t : CoordTask) → get_elem? ts i ≡ some t → t.lane ≤ lanes
  pub empty :
      (i j : ℕ) (t u : CoordTask)
      → get_elem? ts i ≡ some t
      → get_elem? ts j ≡ some u
      → u.lane < scanned t.stage
      → pins u.stage ≡ 0

counts_in-le : (l : ℕ) (t : CoordTask) → counts_in l t ≤ 1
counts_in-le l t = ground arith

Local-frame :
    (m n : CoordMem) (lane : ℕ) (s : CoordStage)
    → (lane < lanes → n.readers lane ≡ m.readers lane)
    → Local m lane s
    → Local n lane s
Local-frame m n lane s same k = ground (arith, same, k)

counts_in_own : (l : ℕ) (t : CoordTask) → t.lane ≡ l → counts_in l t ≡ counts t.stage
counts_in_own l t e = ground (arith, e)

counts_in_other : (l : ℕ) (t : CoordTask) → t.lane ≢ l → counts_in l t ≡ 0
counts_in_other l t ne = ground (arith, ne)

no_intent : (m : CoordMem) (a b : ℕ) → Flags m a b → m.writing ≡ false → b ≡ 0
no_intent m a b f off = ground (arith, f, off)

module _ (c : CoordOp) (m : CoordMem) (ts : List CoordTask) (i : ℕ) (t : CoordTask)
    (e : get_elem? ts i ≡ some t) (h : Coordinated m ts) where
  abbrev m' : CoordMem
  m' = (coord_move c m t).0

  abbrev t' : CoordTask
  t' = (coord_move c m t).1

  move-tally : (l : ℕ) → m'.readers l ≡ sum_by (counts_in l) (set ts i t')
  move-tally l = elim (ℕ_discrete t.lane l) [
    | yes own ↦
        let r : ℕ = others (counts_in l) ts i in
        let before : m.readers t.lane ≡ r + counts t.stage =
          ap m.readers own
          ∙ h.tally l
          ∙ sum_by-others (counts_in l) ts i t e
          ∙ ap (λ n. r + n) (counts_in_own l t own) in
        ap m'.readers (sym own)
        ∙ step-count c t.lane m t.stage r
            (omega (arith, others-lt-length (counts_in l) (counts_in-le l) ts i t e, h.few))
            (h.locals i t e) before
        ∙ ap (λ n. r + n) (sym (counts_in_own l t' own))
        ∙ sym (sum_by-set (counts_in l) ts i t t' e)
    | no other ↦
        step-elsewhere c t.lane m t.stage l (λ q. other (sym q))
        ∙ h.tally l
        ∙ sum_by-others (counts_in l) ts i t e
        ∙ ap (λ n. others (counts_in l) ts i + n)
            (counts_in_other l t other ∙ sym (counts_in_other l t' other))
        ∙ sym (sum_by-set (counts_in l) ts i t t' e)
  ]

  move-Flags :
      Flags m'
        (sum_by (λ t. prepares t.stage) (set ts i t'))
        (sum_by (λ t. intends t.stage) (set ts i t'))
  move-Flags =
      let v : CoordTask → ℕ = λ t. prepares t.stage in
      let w : CoordTask → ℕ = λ t. intends t.stage in
      subst₂ (Flags m') (sym (sum_by-set v ts i t t' e)) (sym (sum_by-set w ts i t t' e)) (
        step-Flags c t.lane m t.stage (others v ts i) (others w ts i)
          (subst₂ (Flags m) (sum_by-others v ts i t e) (sum_by-others w ts i t e) h.flags))

  -- A thread keeps its lane.
  old :
      (j : ℕ) (u : CoordTask)
      → get_elem? (set ts i t') j ≡ some u
      → (q : CoordTask) × (get_elem? ts j ≡ some q) × (q.lane ≡ u.lane)
  old j u f = elim (get_elem?-set_cases ts i j t t' u e f) [
    | inl (same, now) ↦ (t, subst (λ k. get_elem? ts k ≡ some t) same e, ap (λ q. q.lane) now)
    | inr (ne, was) ↦ (u, was, refl)
  ]

  move-locals :
      (j : ℕ) (u : CoordTask) → get_elem? (set ts i t') j ≡ some u → Local m' u.lane u.stage
  move-locals j u f = elim (get_elem?-set_cases ts i j t t' u e f) [
    | inl (same, now) ↦
        subst (λ u. Local m' u.lane u.stage) now (step-Local c t.lane m t.stage (h.locals i t e))
    | inr (ne, was) ↦
        Local-frame m m' u.lane u.stage
          (λ lt.
            step-elsewhere c t.lane m t.stage u.lane (h.placed j i u t was e (λ q. ne (sym q)) lt))
          (h.locals j u was)
  ]

  move-range : (j : ℕ) (u : CoordTask) → get_elem? (set ts i t') j ≡ some u → u.lane ≤ lanes
  move-range j u f = let (q, was, same) = old j u f in subst (λ l. l ≤ lanes) same (h.range j q was)

  move-Placed : Placed (set ts i t')
  move-Placed j k u w f g ne lt =
      let (p, was, same) = old j u f in
      let (q, were, alike) = old k w g in
      λ eq. h.placed j k p q was were ne (rw same lt) (same ∙ eq ∙ sym alike)

  move-empty :
      (j k : ℕ) (u w : CoordTask)
      → get_elem? (set ts i t') j ≡ some u
      → get_elem? (set ts i t') k ≡ some w
      → w.lane < scanned u.stage
      → pins w.stage ≡ 0
  move-empty j k u w f g lt = elim (get_elem?-set_cases ts i j t t' u e f) [
    | inl (si, nu) ↦ elim (get_elem?-set_cases ts i k t t' w e g) [
      | inl (sk, nw) ↦
          let both : u ≡ w = sym nu ∙ nw in
          subst (λ w. pins w.stage ≡ 0) both (scanned-intends u.stage (omega (arith, lt))).1
      | inr (nk, was) ↦ elim (step-scanned c t.lane m t.stage (h.locals i t e)) [
        | inl le ↦ h.empty i k t w e was (omega (arith, lt, le, ap (λ u. scanned u.stage) nu))
        | inr (more, none_there) ↦ elim (ℕ_discrete w.lane (scanned t.stage)) [
          | yes here ↦ omega (
            arith,
            h.tally w.lane,
            ap m.readers here,
            none_there,
            le-sum_by (counts_in w.lane) ts k w was,
            counts_in_own w.lane w refl,
            pins-counts w.stage,
          )
          | no before ↦
              h.empty i k t w e was (omega (arith, lt, more, before, ap (λ u. scanned u.stage) nu))
        ]
      ]
    ]
    | inr (nj, was) ↦ elim (get_elem?-set_cases ts i k t t' w e g) [
      | inl (sk, nw) ↦ elim (step-pins c t.lane m t.stage) [
        | inl le ↦ omega (
          arith,
          le,
          ap (λ u. pins u.stage) nw,
          h.empty j i u t was e (rw (ap (λ u. u.lane) nw) lt),
        )
        | inr off ↦ absurd (
            omega (
              arith,
              no_intent m _ _ h.flags off,
              le-sum_by (λ t. intends t.stage) ts j u was,
              (scanned-intends u.stage (omega (arith, lt))).0,
            ))
      ]
      | inr (nk, were) ↦ h.empty j k u w was were lt
    ]
  ]

  pub move-Coordinated : Coordinated m' (set ts i t')
  move-Coordinated = record {
    few = omega (arith, h.few, length-set ts i t');
    placed = move-Placed;
    tally = move-tally;
    flags = move-Flags;
    locals = move-locals;
    range = move-range;
    empty = move-empty;
  }
