-- ===== src/Guarded/Linear.antt =====
-- sync/guard_lock.rs: the calls under a lawful lock are linearizable.
use crossync.Prelude.{
  ℕ, ◌≡◌, ◌≢◌, inl, inr, refl, sym, ap, ◌∙◌, arith, Bool, true, false, Option, none, some, List, [],
  ◌∷◌, map, get_elem?, set, All, map-set, length-set, lt_of_get_elem?, ◌<◌, map-get_elem?,
  set-get_elem?, get_elem?-map, All-get, get_elem?-set_cases, Bool-cases,
}
use mathlib.Core.Path.{subst}
use crossync.Threads.{run, run_inv}
use crossync.Guarded.Lock.{
  is_read, Request, acquire, release, proceed, Place, out, inside, Lock, Follows, Entering, Going,
  IsLawful,
}
use crossync.Guarded.Machine.{
  Calls, Entry, Body, resting, acquiring, loaded, dropping, GuardedMem, GuardedTask, GuardedChoice,
  lock_move, guarded_enter, guarded_leave, guarded_begin, stored, guarded_step, guarded_move,
}
use crossync.Guarded.History.{Event, effect, answer, entries, Blocks, Explains, guarded_start}

module _ (L : Lock) (K : Calls) (Inv : L.Mem → List L.Thread → Type 0) (law : IsLawful L Inv)
    (v₀ : K.Value) where
  -- Where a thread stands with the lock at each stage; what it has loaded is still the value.
  abbrev Local : K.Value → Place → Body K → Type 0
  Local v p resting = p ≡ out
  Local v p (acquiring g) = Entering (K.mode g) p
  Local v p (loaded g old) = (p ≡ inside (is_read (K.mode g))) × (old ≡ v)
  Local v p dropping = Going p

  abbrev locks : List (GuardedTask L K) → List L.Thread
  locks ts = map (λ t. t.lock) ts

  record Linear (m : GuardedMem L K) (ts : List (GuardedTask L K)) : Type 0 where
    lawful : Inv m.lock (locks ts)
    steady :
        (i : ℕ) (t : GuardedTask L K)
        → get_elem? ts i ≡ some t
        → Local m.value (L.place t.lock) t.stage
    events : List (Event K)
    explains : Explains L K v₀ m ts events

  Local-congr :
      (v w : K.Value) (p : Place) (s : Body K)
      → ((read : Bool) → p ≡ inside read → v ≡ w)
      → Local v p s
      → Local w p s
  Local-congr v w p resting same h = h
  Local-congr v w p (acquiring g) same h = h
  Local-congr v w p (loaded g old) same h = (h.0, h.1 ∙ same (is_read (K.mode g)) h.0)
  Local-congr v w p dropping same h = h

  module _ (c : GuardedChoice L K) (m : GuardedMem L K) (ts : List (GuardedTask L K)) (i : ℕ)
      (t : GuardedTask L K) (e : get_elem? ts i ≡ some t) (h : Linear m ts) where
    -- A move that leaves the value and the thread's log alone.
    quiet :
        (k : L.Mem) (t' : GuardedTask L K)
        → Inv k (set (locks ts) i t'.lock)
        → Local m.value (L.place t'.lock) t'.stage
        → t'.log ≡ t.log
        → Linear (record m { lock = k }) (set ts i t')
    quiet k t' inv here log = record {
      lawful = subst (Inv k) (sym (map-set (λ t. t.lock) ts i t')) inv;
      steady = λ j u f. elim (get_elem?-set_cases ts i j t t' u e f) [
        | inl (same, now) ↦ subst (λ u. Local m.value (L.place u.lock) u.stage) now here
        | inr (ne, was) ↦ h.steady j u was
      ];
      events = h.events;
      explains = record {
        value_exact = h.explains.value_exact;
        logs_exact = λ j u f. elim (get_elem?-set_cases ts i j t t' u e f) [
          | inl (same, now) ↦
              ap (λ u. u.log) (sym now)
              ∙ log
              ∙ subst (λ j. t.log ≡ entries K h.events v₀ j) same (h.explains.logs_exact i t e)
          | inr (ne, was) ↦ h.explains.logs_exact j u was
        ];
        blocks = h.explains.blocks;
        known =
            subst (λ n. All (λ e. e.thread < n) h.events) (sym (length-set ts i t'))
              h.explains.known;
      };
    }

    unmoved : Inv m.lock (set (locks ts) i t.lock)
    unmoved =
        subst (Inv m.lock)
          (sym (set-get_elem? (locks ts) i t.lock (map-get_elem? (λ t. t.lock) ts i t e))) h.lawful

    goes :
        (q : Request) (p : Place)
        → L.place t.lock ≡ p
        → Follows q p (L.place (L.move (L.ask q c.lock) m.lock t.lock).1)
    goes q p here =
        subst (λ p. Follows q p (L.place (L.move (L.ask q c.lock) m.lock t.lock).1)) here
          (law.follows q c.lock m.lock t.lock)

    -- An access of the lock.
    lock_move-Linear :
        (q : Request) (s : Body K)
        → Local m.value (L.place (L.move (L.ask q c.lock) m.lock t.lock).1) s
        → Linear (lock_move L K q c m t s).0 (set ts i (lock_move L K q c m t s).1)
    lock_move-Linear q s here =
        quiet (L.move (L.ask q c.lock) m.lock t.lock).0
          (record t { lock = (L.move (L.ask q c.lock) m.lock t.lock).1; stage = s })
          (law.keeps (L.ask q c.lock) m.lock (locks ts) i t.lock
            (map-get_elem? (λ t. t.lock) ts i t e) h.lawful)
          here refl

    -- A move that completes a call, or gives up a try.
    module _ (g : K.Call) (took : Bool) (s : Body K) where
      abbrev event : Event K
      event = record { thread = i; call = g; took = took }

      abbrev told : GuardedTask L K
      told = record t { stage = s; log = (g, answer K event m.value) ∷ t.log }

      now_entries :
          (log : List (Entry K))
          → log ≡ entries K h.events v₀ i
          → (g, answer K event m.value) ∷ log ≡ entries K (event ∷ h.events) v₀ i
      now_entries log same = rw (same, h.explains.value_exact) (ground arith)

      other_entries : (j : ℕ) → i ≢ j → entries K h.events v₀ j ≡ entries K (event ∷ h.events) v₀ j
      other_entries j ne = ground (arith, ne)

      tell :
          Blocks K event
          → Local (effect K event m.value) (L.place t.lock) s
          → ((j : ℕ) (u : GuardedTask L K)
              → i ≢ j
              → get_elem? ts j ≡ some u
              → Local (effect K event m.value) (L.place u.lock) u.stage)
          → Linear (record m { value = effect K event m.value }) (set ts i told)
      tell blocks here others = record {
        lawful = subst (Inv m.lock) (sym (map-set (λ t. t.lock) ts i told)) unmoved;
        steady = λ j u f. elim (get_elem?-set_cases ts i j t told u e f) [
          | inl (same, now) ↦
              subst (λ u. Local (effect K event m.value) (L.place u.lock) u.stage) now here
          | inr (ne, was) ↦ others j u ne was
        ];
        events = event ∷ h.events;
        explains = record {
          value_exact = ap (effect K event) h.explains.value_exact;
          logs_exact = λ j u f. elim (get_elem?-set_cases ts i j t told u e f) [
            | inl (same, now) ↦
                ap (λ u. u.log) (sym now)
                ∙ subst (λ j. told.log ≡ entries K (event ∷ h.events) v₀ j) same
                    (now_entries t.log (h.explains.logs_exact i t e))
            | inr (ne, was) ↦ h.explains.logs_exact j u was ∙ other_entries j ne
          ];
          blocks = (blocks, h.explains.blocks);
          known =
              subst (λ n. All (λ e. e.thread < n) (event ∷ h.events)) (sym (length-set ts i told))
                (lt_of_get_elem? ts i e, h.explains.known);
        };
      }

    -- Nobody else is inside when a thread stores the value.
    store_unseen :
        (g : K.Call) (new : K.Value) (j : ℕ) (u : GuardedTask L K) (read : Bool)
        → L.place t.lock ≡ inside (is_read (K.mode g))
        → i ≢ j
        → get_elem? ts j ≡ some u
        → L.place u.lock ≡ inside read
        → m.value ≡ stored K g new m.value
    store_unseen g new j u read here ne f there = elim (Bool-cases (is_read (K.mode g))) [
      | inl reads ↦ rw reads refl
      | inr writes ↦ absurd (
          ne (
            law.alone m.lock (locks ts) i j t.lock u.lock read h.lawful
              (map-get_elem? (λ t. t.lock) ts i t e) (map-get_elem? (λ t. t.lock) ts j u f)
              (here ∙ ap inside writes) there))
    ]

    begin-Linear :
        (call : Option K.Call)
        → L.place t.lock ≡ out
        → t.stage ≡ resting
        → Linear (guarded_begin L K call c m t).0 (set ts i (guarded_begin L K call c m t).1)
    begin-Linear none here idle = quiet m.lock t unmoved (h.steady i t e) refl
    begin-Linear (some g) here idle =
        lock_move-Linear (acquire (K.mode g)) (acquiring g)
          (elim (goes (acquire (K.mode g)) _ here) [
            | inl came ↦ inl came
            | inr failed ↦ inr (inr (inr failed))
          ])

    enter-Linear :
        (g : K.Call)
        → Local m.value (L.place t.lock) (acquiring g)
        → Linear
            (guarded_enter L K g (L.place t.lock) c m t).0
            (set ts i (guarded_enter L K g (L.place t.lock) c m t).1)
    enter-Linear g (inl came) =
        rw came (lock_move-Linear proceed (acquiring g) (goes proceed _ came))
    enter-Linear g (inr (inl within)) =
        rw within (quiet m.lock (record t { stage = loaded g m.value }) unmoved (within, refl) refl)
    enter-Linear g (inr (inr (inl failed))) =
        rw failed (lock_move-Linear proceed (acquiring g) (inr (inr (inl (goes proceed _ failed)))))
    enter-Linear g (inr (inr (inr (gone, tries)))) =
        rw gone (tell g false resting (λ _. tries) gone (λ j u _ f. h.steady j u f))

    leave-Linear :
        Local m.value (L.place t.lock) dropping
        → Linear
            (guarded_leave L K (L.place t.lock) c m t).0
            (set ts i (guarded_leave L K (L.place t.lock) c m t).1)
    leave-Linear (inl (r, within)) =
        rw within (lock_move-Linear release dropping (inr (inl (goes release _ within))))
    leave-Linear (inr (inl going)) =
        rw going (lock_move-Linear proceed dropping (inr (goes proceed _ going)))
    leave-Linear (inr (inr gone)) =
        rw gone (quiet m.lock (record t { stage = resting }) unmoved gone refl)

    step-Linear :
        (s : Body K)
        → t.stage ≡ s
        → Linear (guarded_step L K s c m t).0 (set ts i (guarded_step L K s c m t).1)
    step-Linear resting at =
        begin-Linear c.call (subst (Local m.value (L.place t.lock)) at (h.steady i t e)) at
    step-Linear (acquiring g) at =
        enter-Linear g (subst (Local m.value (L.place t.lock)) at (h.steady i t e))
    step-Linear (loaded g old) at =
        let (here, same) = subst (Local m.value (L.place t.lock)) at (h.steady i t e) in
        rw same (
          tell g true dropping (λ no. absurd (ground (arith, no))) (inl (is_read (K.mode g), here))
            (λ j u ne f.
              Local-congr m.value (stored K g (K.body g m.value).1 m.value) (L.place u.lock) u.stage
                (λ read there. store_unseen g (K.body g m.value).1 j u read here ne f there)
                (h.steady j u f)))
    step-Linear dropping at =
        leave-Linear (subst (Local m.value (L.place t.lock)) at (h.steady i t e))

  -- In every interleaving there is one order of the calls that explains the value and every result.
  pub run-Explains :
      (k : L.Mem) (ps : List L.Thread) (sched : List (ℕ × GuardedChoice L K))
      → Inv k ps
      → All (λ p. L.place p ≡ out) ps
      → let s = run (guarded_move L K) sched (guarded_start L K v₀ k ps) in
        (es : List (Event K)) × Explains L K v₀ s.mem s.threads es
  run-Explains k ps sched inv outside =
      let h =
        run_inv (guarded_move L K) Linear
          (λ c m ts i t e h. step-Linear c m ts i t e h t.stage refl) sched
          (guarded_start L K v₀ k ps) fresh in
      (h.events, h.explains)
    where
      same_locks : (qs : List L.Thread) → locks (guarded_start L K v₀ k qs).threads ≡ qs
      same_locks [] = refl
      same_locks (q ∷ qs) = ap (λ l. q ∷ l) (same_locks qs)

      fresh : Linear (guarded_start L K v₀ k ps).mem (guarded_start L K v₀ k ps).threads
      fresh = record {
        lawful = subst (Inv k) (sym (same_locks ps)) inv;
        steady = λ i t e.
            let (p, was, now) =
              get_elem?-map (λ p. record { lock = p; stage = resting; log = [] }) ps i t e in
            subst (λ t. Local v₀ (L.place t.lock) t.stage) now
              (All-get (λ p. L.place p ≡ out) ps i outside was);
        events = [];
        explains = record {
          value_exact = refl;
          logs_exact = λ i t e.
              let (p, was, now) =
                get_elem?-map (λ p. record { lock = p; stage = resting; log = [] }) ps i t e in
              ap (λ t. t.log) (sym now);
          blocks = tt;
          known = tt;
        };
      }
