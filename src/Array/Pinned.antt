-- ===== src/Array/Pinned.antt =====
-- atomic/array.rs: in every interleaving threads know what they rely on, and the counters agree.
use mathlib.Core.Path.{subst}
use crossync.Prelude.{
  ℕ, ◌+◌, ◌^◌, ◌≡◌, ◌≢◌, refl, sym, ap, inl, inr, arith, Bool, true, false, not, ◌&&◌, ltb, Option,
  none, some, List, map, get_elem?, set, sum_by, others, sum_by-others, sum_by-set, others_zero,
  map-set, map-get_elem?, set-get_elem?, get_elem?-set_cases, Bool-cases,
}
use crossync.Guarded.Lock.{
  Acquire, is_read, is_try, shared, try_exclusive, Request, acquire, release, proceed, Place, out,
  inside, Lock, Follows, Entering, Going, Follows-Entering, IsLawful,
}
use crossync.Array.Storage.{
  Store, StorageCall, call_reset, Work, swap_storage, reset_look, StorageStage, idle, entering,
  working, reset_try, reset_enter, reset_leave, store_step, StorageMem, StorageTask, StorageChoice,
  begin_work, coord_access, on_place, give_back, storage_call, storage_step, storage_move,
}
use crossync.Array.Storage
use crossync.Array.Places.{
  Local, Weightless, Local-frame, Proceeds-Local, Local-mid, Local-uncounted,
}
use crossync.Array.Pins.{
  exclusive_work, mid, uncounted, Settled, Knows, step-Settled, step-Knows_other,
}

module _ (L : Lock) (Inv : L.Mem → List L.Thread → Type 0) (law : IsLawful L Inv) where
  abbrev pub coords : List (StorageTask L) → List L.Thread
  coords ts = map (λ t. t.coord) ts

  abbrev pub mid_of : StorageTask L → ℕ
  mid_of t = mid t.stage

  abbrev pub uncounted_of : StorageTask L → ℕ
  uncounted_of t = uncounted t.stage

  pub record Pinned (m : StorageMem L) (ts : List (StorageTask L)) : Type 0 where
    pub lawful : Inv m.coord (coords ts)
    pub steady :
        (i : ℕ) (t : StorageTask L)
        → get_elem? ts i ≡ some t
        → Local m.store (L.place t.coord) t.stage
    pub settled : sum_by mid_of ts ≡ 0 → Settled m.store (sum_by uncounted_of ts)

  module _ (c : StorageChoice L) (m : StorageMem L) (ts : List (StorageTask L)) (i : ℕ)
      (t : StorageTask L) (e : get_elem? ts i ≡ some t) (h : Pinned m ts) where
    update :
        (k : L.Mem) (store : Store) (t' : StorageTask L)
        → Inv k (set (coords ts) i t'.coord)
        → Local store (L.place t'.coord) t'.stage
        → ((j : ℕ) (u : StorageTask L)
            → i ≢ j
            → get_elem? ts j ≡ some u
            → Local store (L.place u.coord) u.stage)
        → (others mid_of ts i + mid t'.stage ≡ 0
            → Settled store (others uncounted_of ts i + uncounted t'.stage))
        → Pinned (record { coord = k; store = store }) (set ts i t')
    update k store t' inv here there settled = record {
      lawful = subst (Inv k) (sym (map-set (λ t. t.coord) ts i t')) inv;
      steady = λ j u f. elim (get_elem?-set_cases ts i j t t' u e f) [
        | inl (same, now) ↦ subst (λ u. Local store (L.place u.coord) u.stage) now here
        | inr (ne, was) ↦ there j u ne was
      ];
      settled = rw (sum_by-set mid_of ts i t t' e, sum_by-set uncounted_of ts i t t' e) settled;
    }

    before :
        others mid_of ts i + mid t.stage ≡ 0
        → Settled m.store (others uncounted_of ts i + uncounted t.stage)
    before =
        rw (sym (sum_by-others mid_of ts i t e), sym (sum_by-others uncounted_of ts i t e))
          h.settled

    -- A move that leaves the counters alone, between stages without work on them.
    quiet :
        (k : L.Mem) (t' : StorageTask L)
        → Inv k (set (coords ts) i t'.coord)
        → Local m.store (L.place t'.coord) t'.stage
        → Weightless t.stage
        → Weightless t'.stage
        → Pinned (record m { coord = k }) (set ts i t')
    quiet k t' inv here light light' =
        update k m.store t' inv here (λ j u ne f. h.steady j u f)
          (rw (light'.0, light'.1) (rw (light.0, light.1) at before))

    unmoved : Inv m.coord (set (coords ts) i t.coord)
    unmoved =
        subst (Inv m.coord)
          (sym (set-get_elem? (coords ts) i t.coord (map-get_elem? (λ t. t.coord) ts i t e)))
          h.lawful

    goes :
        (q : Request) (p : Place)
        → L.place t.coord ≡ p
        → Follows q p (L.place (L.move (L.ask q c.coord) m.coord t.coord).1)
    goes q p here =
        subst (λ p. Follows q p (L.place (L.move (L.ask q c.coord) m.coord t.coord).1)) here
          (law.follows q c.coord m.coord t.coord)

    access-Pinned :
        (q : Request) (s : StorageStage)
        → Local m.store (L.place (L.move (L.ask q c.coord) m.coord t.coord).1) s
        → Weightless t.stage
        → Weightless s
        → Pinned (coord_access L q c m t s).0 (set ts i (coord_access L q c m t s).1)
    access-Pinned q s here light light' =
        quiet (L.move (L.ask q c.coord) m.coord t.coord).0
          (record t { coord = (L.move (L.ask q c.coord) m.coord t.coord).1; stage = s })
          (law.keeps (L.ask q c.coord) m.coord (coords ts) i t.coord
            (map-get_elem? (λ t. t.coord) ts i t e) h.lawful)
          here light light'

    stage-Pinned :
        (s : StorageStage)
        → Local m.store (L.place t.coord) s
        → Weightless t.stage
        → Weightless s
        → Pinned m (set ts i (record t { stage = s }))
    stage-Pinned s here light light' =
        quiet m.coord (record t { stage = s }) unmoved here light light'

    -- A thread that is inside and one that is inside for writing are one.
    not_beside :
        (j : ℕ) (u : StorageTask L) (mine its : Bool)
        → i ≢ j
        → get_elem? ts j ≡ some u
        → L.place t.coord ≡ inside mine
        → L.place u.coord ≡ inside its
        → (mine ≡ true) × (its ≡ true)
    not_beside j u false its ne f here there = absurd (
        ne (
          law.alone m.coord (coords ts) i j t.coord u.coord its h.lawful
            (map-get_elem? (λ t. t.coord) ts i t e) (map-get_elem? (λ t. t.coord) ts j u f) here
            there))
    not_beside j u true false ne f here there = absurd (
        ne (
          sym (
            law.alone m.coord (coords ts) j i u.coord t.coord true h.lawful
              (map-get_elem? (λ t. t.coord) ts j u f) (map-get_elem? (λ t. t.coord) ts i t e) there
              here)))
    not_beside j u true true ne f here there = (refl, refl)

    no_other_mid : (mine : Bool) → L.place t.coord ≡ inside mine → others mid_of ts i ≡ 0
    no_other_mid mine here = others_zero mid_of ts i (λ j u ne f.
        Local-mid m.store (L.place u.coord) u.stage (h.steady j u f)
          (λ its there. (not_beside j u mine its ne f here there).1))

    no_other_uncounted : L.place t.coord ≡ inside false → others uncounted_of ts i ≡ 0
    no_other_uncounted here = others_zero uncounted_of ts i (λ j u ne f.
        Local-uncounted m.store (L.place u.coord) u.stage (h.steady j u f)
          (λ its there. ground (arith, (not_beside j u false its ne f here there).0)))

    work-Pinned :
        (w : Work)
        → L.place t.coord ≡ inside (not (exclusive_work w))
        → Knows m.store w
        → t.stage ≡ working w
        → let (store, s) = store_step c.ready m.store w in
          Pinned (record m { store = store }) (set ts i (record t { stage = s }))
    work-Pinned w here k at_work =
        let (store, s) = store_step c.ready m.store w in
        let quiet_mid = no_other_mid (not (exclusive_work w)) here in
        let (settled, ahead) =
          step-Settled c.ready m.store w (others uncounted_of ts i) k
            (λ alone. no_other_uncounted (subst (λ b. L.place t.coord ≡ inside (not b)) alone here))
            (λ light.
              subst (λ s. Settled m.store (others uncounted_of ts i + uncounted s)) at_work
                (before (omega (arith, quiet_mid, ap mid at_work, light)))) in
        update m.coord store (record t { stage = s }) unmoved
          (Proceeds-Local store (exclusive_work w) (L.place t.coord) s here ahead)
          (λ j u ne f.
            Local-frame m.store store (L.place u.coord) u.stage
              (λ x there at_x known.
                let (mine, its) =
                  not_beside j u (not (exclusive_work w)) (not (exclusive_work x)) ne f here
                    there in
                step-Knows_other c.ready m.store w x (ground (arith, mine)) (ground (arith, its))
                  known)
              (h.steady j u f))
          (λ none_mid. settled (omega (arith, quiet_mid, none_mid)))

    -- A thread that waits for the lock at a stage, with what comes when it has it and when it fails.
    on_place-Pinned :
        (a : Acquire) (s : StorageStage) (q : Request) (z : StorageStage)
        → Weightless t.stage
        → Weightless s
        → Weightless z
        → Entering a (L.place t.coord)
        → ((p : Place) → Entering a p → Local m.store p t.stage)
        → (L.place t.coord ≡ inside (is_read a) → Local m.store (L.place t.coord) s)
        → ((p : Place) → is_try a ≡ true → Follows q out p → Local m.store p z)
        → Pinned
            (on_place L (L.place t.coord) s (q, z) c m t).0
            (set ts i (on_place L (L.place t.coord) s (q, z) c m t).1)
    on_place-Pinned a s q z light light_s light_z (inl came) stays enters fails =
        rw came (access-Pinned proceed t.stage (stays _ (goes proceed _ came)) light light)
    on_place-Pinned a s q z light light_s light_z (inr (inl within)) stays enters fails =
        rw within (stage-Pinned s (enters within) light light_s)
    on_place-Pinned a s q z light light_s light_z (inr (inr (inl failed))) stays enters fails =
        rw failed (
          access-Pinned proceed t.stage (stays _ (inr (inr (inl (goes proceed _ failed))))) light
            light)
    on_place-Pinned a s q z light light_s light_z (inr (inr (inr (gone, tries)))) stays enters
          fails =
        rw gone (access-Pinned q z (fails _ tries (goes q _ gone)) light light_z)

    -- A thread that gives the lock up.
    give_back-Pinned :
        (z : StorageMem L × StorageTask L)
        → Weightless t.stage
        → Going (L.place t.coord)
        → ((p : Place) → Going p → Local m.store p t.stage)
        → (L.place t.coord ≡ out → Pinned z.0 (set ts i z.1))
        → Pinned
            (give_back L (L.place t.coord) z c m t).0
            (set ts i (give_back L (L.place t.coord) z c m t).1)
    give_back-Pinned z light (inl (r, within)) stays ends =
        rw within
          (access-Pinned release t.stage (stays _ (inr (inl (goes release _ within)))) light light)
    give_back-Pinned z light (inr (inl going)) stays ends =
        rw going (access-Pinned proceed t.stage (stays _ (inr (goes proceed _ going))) light light)
    give_back-Pinned z light (inr (inr gone)) stays ends = rw gone (ends gone)

    call-Pinned :
        (call : Option StorageCall)
        → Weightless t.stage
        → t.stage ≡ idle
        → L.place t.coord ≡ out
        → Pinned (storage_call L call c m t).0 (set ts i (storage_call L call c m t).1)
    call-Pinned none light at_rest here = quiet m.coord t unmoved (h.steady i t e) light light
    call-Pinned (some (call_reset n)) light at_rest here =
        elim (Bool-cases (ltb 0 n && ltb n (2 ^ 64))) [
          | inl fits ↦ rw fits (
              access-Pinned (acquire try_exclusive) (reset_try n)
                (
                  Follows-Entering try_exclusive _ (goes (acquire try_exclusive) _ here),
                  ground (arith, fits),
                )
                light (refl, refl))
          | inr unfit ↦ rw unfit (quiet m.coord t unmoved (h.steady i t e) light light)
        ]
    call-Pinned (some call) light at_rest here =
        access-Pinned (acquire shared) (entering call)
          (Follows-Entering shared _ (goes (acquire shared) _ here)) light (refl, refl)

    begin_work-Local :
        (call : StorageCall)
        → L.place t.coord ≡ inside true
        → Local m.store (L.place t.coord) (begin_work call m.store.storage)
    begin_work-Local call here = ground (arith, here)

    begin_work-Weightless : (call : StorageCall) (s : ℕ) → Weightless (begin_work call s)
    begin_work-Weightless call s = ground arith

    module _ (s : StorageStage) (now : t.stage ≡ s) where
      present : Local m.store (L.place t.coord) s
      present = subst (Local m.store (L.place t.coord)) now (h.steady i t e)

      remains : (p : Place) → Local m.store p s → Local m.store p t.stage
      remains p x = subst (Local m.store p) (sym now) x

      lightly : Weightless s → Weightless t.stage
      lightly light = subst Weightless (sym now) light

    pub step-Pinned :
        (s : StorageStage)
        → t.stage ≡ s
        → Pinned (storage_step L s c m t).0 (set ts i (storage_step L s c m t).1)
    step-Pinned idle now = call-Pinned c.call (lightly idle now (refl, refl)) now (present idle now)
    step-Pinned (entering call) now =
        on_place-Pinned shared (begin_work call m.store.storage) proceed (entering call)
          (lightly (entering call) now (refl, refl)) (begin_work-Weightless call m.store.storage)
          (refl, refl) (present (entering call) now) (remains (entering call) now)
          (begin_work-Local call) (λ p tries _. absurd (ground (arith, tries)))
    step-Pinned (working w) now =
        let (here, known) = present (working w) now in work-Pinned w here known now
    step-Pinned Storage.leaving now =
        give_back-Pinned (m, record t { stage = idle }) (lightly Storage.leaving now (refl, refl))
          (present Storage.leaving now) (remains Storage.leaving now)
          (λ gone. stage-Pinned idle gone (lightly Storage.leaving now (refl, refl)) (refl, refl))
    step-Pinned (reset_try n) now =
        let (here, fits) = present (reset_try n) now in
        on_place-Pinned try_exclusive (working (swap_storage n)) (acquire shared) (reset_enter n)
          (lightly (reset_try n) now (refl, refl)) (refl, refl) (refl, refl) here
          (λ p x. remains (reset_try n) now p (x, fits)) (λ within. (within, fits))
          (λ p tries follows. (Follows-Entering shared p follows, fits))
    step-Pinned (reset_enter n) now =
        let (here, fits) = present (reset_enter n) now in
        on_place-Pinned shared (working (reset_look n)) proceed (reset_enter n)
          (lightly (reset_enter n) now (refl, refl)) (refl, refl) (refl, refl) here
          (λ p x. remains (reset_enter n) now p (x, fits)) (λ within. (within, fits))
          (λ p tries _. absurd (ground (arith, tries)))
    step-Pinned (reset_leave n) now =
        let (here, fits) = present (reset_leave n) now in
        give_back-Pinned (coord_access L (acquire try_exclusive) c m t (reset_try n))
          (lightly (reset_leave n) now (refl, refl)) here
          (λ p x. remains (reset_leave n) now p (x, fits))
          (λ gone.
            access-Pinned (acquire try_exclusive) (reset_try n)
              (Follows-Entering try_exclusive _ (goes (acquire try_exclusive) _ gone), fits)
              (lightly (reset_leave n) now (refl, refl)) (refl, refl))
