-- ===== src/HashMap/Refinement.antt =====
-- atomic/hashmap.rs: a sequence of operations on `AtomicHashMap`, against a function from keys.
use mathlib.Core.Option
use mathlib.Core.Path.{fun_ext}
use crossync.Prelude.{◌≡◌, refl, ap, Bool, Option, none, some, List, [], ◌∷◌, if◌then◌else◌}
use crossync.HashMap.Key.{HashKey}
use crossync.HashMap.Chain.Walks.{present}
use crossync.HashMap.Table.{
  Table, insert, remove, with_mut, get, contains_key, clear, view, IsValid,
}
use crossync.HashMap.Table.Methods.{insert-Sets, remove-Sets, with_mut-Sets, reads_view, clear_lem}

pub data MapOp {ℓ} (K V : Type ℓ) : Type ℓ where
  put : (key : K) (value : V) → MapOp K V
  take : (key : K) → MapOp K V
  alter : (key : K) (f : V → V) → MapOp K V
  look : (key : K) → MapOp K V
  has : (key : K) → MapOp K V
  wipe : MapOp K V

pub data Answer {ℓ} (V : Type ℓ) : Type ℓ where
  found : (value : Option V) → Answer V
  said : (answer : Bool) → Answer V
  quiet : Answer V

module _ {ℓ} {K V : Type ℓ} ⦃hk : HashKey K⦄ where
  -- One method of the map, with what it returns.
  unfoldable pub call_map : MapOp K V → Table K V → Option (Answer V × Table K V)
  call_map (put k v) t = Option.map (λ r. (found r.0, r.1)) (insert t k v)
  call_map (take k) t = Option.map (λ r. (found r.0, r.1)) (remove t k)
  call_map (alter k f) t = Option.map (λ r. (said r.0, r.1)) (with_mut t k f)
  call_map (look k) t = Option.map (λ r. (found r, t)) (get t k)
  call_map (has k) t = Option.map (λ r. (said r, t)) (contains_key t k)
  call_map wipe t = some (quiet, clear t)

  unfoldable pub call_all : List (MapOp K V) → Table K V → Option (List (Answer V) × Table K V)
  unfolding Option.bind
  call_all [] t = some ([], t)
  call_all (o ∷ os) t =
      Option.bind (call_map o t) λ r. Option.map (λ q. (r.0 ∷ q.0, q.1)) (call_all os r.1)

  -- The same on a function from keys to values.
  abbrev pub update : (K → Option V) → K → Option V → K → Option V
  update m k w j = if hk.same k j then w else m j

  abbrev pub spec_call : MapOp K V → (K → Option V) → Answer V × (K → Option V)
  spec_call (put k v) m = (found (m k), update m k (some v))
  spec_call (take k) m = (found (m k), update m k none)
  spec_call (alter k f) m = (said (present (m k)), update m k (Option.map f (m k)))
  spec_call (look k) m = (found (m k), m)
  spec_call (has k) m = (said (present (m k)), m)
  spec_call wipe m = (quiet, λ _. none)

  abbrev pub spec_all : List (MapOp K V) → (K → Option V) → List (Answer V) × (K → Option V)
  spec_all [] m = ([], m)
  spec_all (o ∷ os) m =
      let (a, m') = spec_call o m in let (rest, last) = spec_all os m' in (a ∷ rest, last)

  -- What a call does when the map stands for `m`.
  pub record Calls (o : MapOp K V) (t : Table K V) (out : Answer V × Table K V) : Type ℓ where
    pub done : call_map o t ≡ some out
    pub answers : out.0 ≡ (spec_call o (view t)).0
    pub becomes : view out.1 ≡ (spec_call o (view t)).1
    pub valid : IsValid out.1

  pub call_lem :
      (o : MapOp K V) (t : Table K V) → IsValid t → (out : Answer V × Table K V) × Calls o t out
  unfolding call_map
  call_lem (put k v) t ok =
      let (out, e, old, sets, _) = insert-Sets t k v ok in
      (
        (found out.0, out.1),
        record {
          done = rw e;
          answers = ap found old;
          becomes = fun_ext λ j. sets.looked_up j;
          valid = sets.valid;
        },
      )
  call_lem (take k) t ok =
      let (out, e, old, sets, _) = remove-Sets t k ok in
      (
        (found out.0, out.1),
        record {
          done = rw e;
          answers = ap found old;
          becomes = fun_ext λ j. sets.looked_up j;
          valid = sets.valid;
        },
      )
  call_lem (alter k f) t ok =
      let (out, e, ran, sets, _) = with_mut-Sets t k f ok in
      (
        (said out.0, out.1),
        record {
          done = rw e;
          answers = ap said ran;
          becomes = fun_ext λ j. sets.looked_up j;
          valid = sets.valid;
        },
      )
  call_lem (look k) t ok = (
    (found (view t k), t),
    record { done = rw (reads_view t k ok).0; answers = refl; becomes = refl; valid = ok },
  )
  call_lem (has k) t ok = (
    (said (present (view t k)), t),
    record { done = rw (reads_view t k ok).1; answers = refl; becomes = refl; valid = ok },
  )
  call_lem wipe t ok = (
    (quiet, clear t),
    record {
      done = refl;
      answers = refl;
      becomes = fun_ext λ j. (clear_lem t ok).unmapped j;
      valid = (clear_lem t ok).valid;
    },
  )

  -- A valid map implements a function from keys to values, up to the equality of keys: any sequence
  -- of insert, remove, with_mut, get, contains_key and clear runs without a panic, every call
  -- returns what it would return on the function, and the map stands for the function that comes
  -- out, and is valid.
  pub call_all_refines :
      (os : List (MapOp K V)) (t : Table K V)
      → IsValid t
      → (out : List (Answer V) × Table K V) × (call_all os t ≡ some out)
        × (out.0 ≡ (spec_all os (view t)).0)
        × (view out.1 ≡ (spec_all os (view t)).1)
        × IsValid out.1
  unfolding call_all Option.bind
  call_all_refines [] t ok = (([], t), refl, refl, refl, ok)
  call_all_refines (o ∷ os) t ok =
      let (r, c) = call_lem o t ok in
      let (q, e, answers, becomes, valid) = call_all_refines os r.1 c.valid in
      (
        (r.0 ∷ q.0, q.1),
        rw (c.done, e),
        rw (c.answers, answers, c.becomes),
        rw (becomes, c.becomes),
        valid,
      )
