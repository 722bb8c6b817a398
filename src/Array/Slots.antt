-- ===== src/Array/Slots.antt =====
-- atomic/array.rs: what the tail, the length and the slots say of the pushes under way, in every
-- interleaving.
use crossync.Prelude.{
  ℕ, ◌+◌, ◌^◌, ◌≤◌, ◌<◌, ◌≡◌, ◌⊎◌, inl, inr, refl, sym, arith, Bool, true, false, Option, none,
  some, List, ltb, ◌==◌, if◌then◌else◌, get_elem?, set, get_elem?-set_cases, sum_by, others,
  sum_by-others, sum_by-set, w-le-others, sum_by-replicate, All-replicate, All-get, replicate,
}
use native.Mathlib.Decide.{ℕ_discrete}
use mathlib.Core.Path.{subst}
use crossync.Threads.{System, run, run_inv}
use crossync.Array.Machine.{
  ArrayMem, ArrayOp, ArrayPc, idle, push_cas, slow_cas, write_value, add_len, store_state, get_head,
  get_wait, array_call, array_move,
}

module _ {T : Type 0} where
  -- A push that has its slot and is not counted in `len` yet.
  abbrev pub uncounted : ArrayPc T → ℕ
  uncounted (write_value _ _) = 1
  uncounted (add_len _) = 1
  uncounted _ = 0

  -- A push that has the slot `p`, up to the store of its state.
  abbrev pub claims : ℕ → ArrayPc T → ℕ
  claims p (write_value _ tail) = if tail == p then 1 else 0
  claims p (add_len tail) = if tail == p then 1 else 0
  claims p (store_state tail) = if tail == p then 1 else 0
  claims p _ = 0

  abbrev pub has : Option T → Bool
  has none = false
  has (some x) = true

  abbrev pub Local : ArrayMem T → ArrayPc T → Type 0
  Local m (push_cas _ tail) = tail < m.capacity
  Local m (slow_cas _ tail) = tail < m.capacity
  Local m (add_len tail) = has (m.slots tail).value ≡ true
  Local m (store_state tail) = has (m.slots tail).value ≡ true
  Local m (get_head index) = index < m.tail
  Local m (get_wait target) = target < m.tail
  Local m _ = Unit

  pub record Counts (m : ArrayMem T) (a : ℕ) : Type 0 where
    pub no_head : m.head ≡ 0
    pub size : m.capacity < 2 ^ 64
    pub within : m.tail ≤ m.capacity
    pub counted : m.len + a ≡ m.tail

  -- The slot `p` with `b` pushes that have it.
  pub record Taken (m : ArrayMem T) (p b : ℕ) : Type 0 where
    pub once : b + (m.slots p).state ≡ (if ltb p m.tail then 1 else 0)
    pub present : (m.slots p).state ≡ 1 → has (m.slots p).value ≡ true

  module _ (c : ArrayOp T) (m : ArrayMem T) (s : ArrayPc T) where
    step-Counts :
        (a : ℕ)
        → Local m s
        → Counts m (a + uncounted s)
        → Counts (array_move c m s).0 (a + uncounted (array_move c m s).1)
    unfolding array_move array_call
    step-Counts a k h = ground (arith, k, h)

    step-Taken :
        (p b : ℕ)
        → Local m s
        → Taken m p (b + claims p s)
        → Taken (array_move c m s).0 p (b + claims p (array_move c m s).1)
    unfolding array_move array_call
    step-Taken p b k h = ground (arith, k, h)

    step-Local : (a : ℕ) → Counts m a → Local m s → Local (array_move c m s).0 (array_move c m s).1
    unfolding array_move array_call
    step-Local a h k = ground (arith, h, k)

    step-Local_other : (t : ArrayPc T) → Local m t → Local (array_move c m s).0 t
    unfolding array_move array_call
    step-Local_other t k = ground (arith, k)

  pub record Sound (m : ArrayMem T) (ts : List (ArrayPc T)) : Type 0 where
    pub counts : Counts m (sum_by uncounted ts)
    pub taken : (p : ℕ) → Taken m p (sum_by (claims p) ts)
    pub locals : (i : ℕ) (t : ArrayPc T) → get_elem? ts i ≡ some t → Local m t

  move-Sound :
      (c : ArrayOp T) (m : ArrayMem T) (ts : List (ArrayPc T)) (i : ℕ) (t : ArrayPc T)
      → get_elem? ts i ≡ some t
      → Sound m ts
      → Sound (array_move c m t).0 (set ts i (array_move c m t).1)
  move-Sound c m ts i t e h = record {
    counts = subst (Counts m') (sym (sum_by-set uncounted ts i t t' e)) (
        step-Counts c m t (others uncounted ts i) (h.locals i t e)
          (subst (Counts m) (sum_by-others uncounted ts i t e) h.counts));
    taken = λ p. subst (Taken m' p) (sym (sum_by-set (claims p) ts i t t' e)) (
        step-Taken c m t p (others (claims p) ts i) (h.locals i t e)
          (subst (Taken m p) (sum_by-others (claims p) ts i t e) (h.taken p)));
    locals = λ j u f. elim (get_elem?-set_cases ts i j t t' u e f) [
      | inl (same, now) ↦
          subst (Local m') now (step-Local c m t (sum_by uncounted ts) h.counts (h.locals i t e))
      | inr (ne, was) ↦ step-Local_other c m t u (h.locals j u was)
    ];
  }
    where
      m' : ArrayMem T
      m' = (array_move c m t).0

      t' : ArrayPc T
      t' = (array_move c m t).1

  -- `with_capacity`, and threads that are idle.
  abbrev pub array_start : ℕ → ℕ → System (ArrayMem T) (ArrayPc T)
  array_start capacity n = record {
    mem = record {
      slots = λ p. record { state = 0; value = none };
      capacity = capacity;
      head = 0;
      tail = 0;
      len = 0;
    };
    threads = replicate n idle;
  }

  module _ (capacity n : ℕ) (fits : capacity < 2 ^ 64) (sched : List (ℕ × ArrayOp T)) where
    run-Sound :
        Sound
          (run array_move sched (array_start capacity n)).mem
          (run array_move sched (array_start capacity n)).threads
    run-Sound = run_inv array_move Sound move-Sound sched (array_start capacity n) (record {
      counts = omega (arith, fits, sum_by-replicate uncounted n idle refl);
      taken = λ p.
          new p (sum_by (claims p) (replicate n idle)) (sum_by-replicate (claims p) n idle refl);
      locals = λ i t e. fresh i t e;
    })
      where
        new : (p b : ℕ) → b ≡ 0 → Taken (array_start capacity n).mem p b
        new p b none_yet = ground (arith, none_yet)

        fresh :
            (i : ℕ) (t : ArrayPc T)
            → get_elem? (replicate n idle) i ≡ some t
            → Local (array_start capacity n).mem t
        fresh i t e =
            All-get (Local (array_start capacity n).mem) (replicate n idle) i
              (All-replicate (Local (array_start capacity n).mem) n idle tt) e

    -- Threads share an `AtomicArray` of a capacity below 2 ^ 64: in every interleaving the slots below
    -- the tail, and no others, are either written with a value or are those of exactly one push under
    -- way; and the length, with the pushes that have not counted theirs yet, is the tail.
    pub array_slots_exact :
        let s = run array_move sched (array_start capacity n) in
        (s.mem.len + sum_by uncounted s.threads ≡ s.mem.tail)
        × (s.mem.tail ≤ s.mem.capacity)
        × ((p : ℕ)
            → (sum_by (claims p) s.threads + (s.mem.slots p).state
                ≡ (if ltb p s.mem.tail then 1 else 0))
              × ((s.mem.slots p).state ≡ 1 → has (s.mem.slots p).value ≡ true))
    array_slots_exact =
        let h = run-Sound in
        (h.counts.counted, h.counts.within, λ p. ((h.taken p).once, (h.taken p).present))

    -- Threads share an `AtomicArray` of a capacity below 2 ^ 64: in every interleaving, two threads that
    -- push into one slot are one thread.
    pub array_push_alone :
        (i j p : ℕ) (t u : ArrayPc T)
        → get_elem? (run array_move sched (array_start capacity n)).threads i ≡ some t
        → get_elem? (run array_move sched (array_start capacity n)).threads j ≡ some u
        → claims p t ≡ 1
        → claims p u ≡ 1
        → i ≡ j
    array_push_alone i j p t u e f mine theirs = elim (ℕ_discrete i j) [
      | yes same ↦ same
      | no ne ↦
          let ps = (run array_move sched (array_start capacity n)).threads in
          absurd (
            few _ p _ (run-Sound.taken p) (
              omega (
                arith,
                mine,
                theirs,
                sum_by-others (claims p) ps i t e,
                w-le-others (claims p) ps i j u ne f,
              )))
    ]
      where
        few : (m : ArrayMem T) (p b : ℕ) → Taken m p b → 2 ≤ b → ⊥
        few m p b h two = ground (arith, h, two)

    -- Threads share an `AtomicArray` of a capacity below 2 ^ 64: in every interleaving, a `get` that waits
    -- for its slot finds a value there, or waits for a push under way.
    pub array_get_waits :
        (i target : ℕ)
        → get_elem? (run array_move sched (array_start capacity n)).threads i
          ≡ some (get_wait target)
        → let s = run array_move sched (array_start capacity n) in
          (((s.mem.slots target).state ≡ 1) × (has (s.mem.slots target).value ≡ true))
          ⊎ (sum_by (claims target) s.threads ≡ 1)
    array_get_waits i target e =
        found _ target _ (run-Sound.taken target) (run-Sound.locals i (get_wait target) e)
      where
        found :
            (m : ArrayMem T) (p b : ℕ)
            → Taken m p b
            → p < m.tail
            → (((m.slots p).state ≡ 1) × (has (m.slots p).value ≡ true)) ⊎ (b ≡ 1)
        found m p b h lt = elim (ℕ_discrete b 1) [
          | yes one ↦ inr one
          | no ne ↦
              let full : (m.slots p).state ≡ 1 = ground (arith, h.once, lt, ne) in
              inl (full, h.present full)
        ]
