-- ===== src/HashMap/Chain/Hashes.antt =====
-- atomic/hashmap.rs: the walks bring no new hash into a chain.
use mathlib.Core.Option
use crossync.Prelude.{ℕ, Bool, Option, none, some, [], ◌∷◌, arith, if◌then◌else◌, All}
use crossync.HashMap.Key.{HashKey}
use crossync.HashMap.Chain.{Entry, Chain, hit, modify, replace, unlink}

-- Chains whose hashes all satisfy a predicate.
module _ {ℓ} {K V : Type ℓ} ⦃hk : HashKey K⦄ (P : ℕ → Type 0) where
  abbrev pub Hashes : Chain K V → Type 0
  Hashes c = All (λ e. P e.hash) c

  abbrev pub HashesWith : Option (V × Chain K V) → Type 0
  HashesWith none = Unit
  HashesWith (some (_, c)) = Hashes c

  abbrev pub HashesOf : Option (Chain K V) → Type 0
  HashesOf none = Unit
  HashesOf (some c) = Hashes c

  -- The walk goes on behind an entry.
  HashesWith-cons :
      (b : Bool) (v : V) (d : Chain K V) (e : Entry K V) (r : Option (V × Chain K V))
      → P e.hash
      → Hashes d
      → HashesWith r
      → HashesWith (if b then some (v, d) else Option.map (λ r. (r.0, e ∷ r.1)) r)
  HashesWith-cons b v d e none p a h = ground (arith, a)
  HashesWith-cons b v d e (some (_, c)) p a h = ground (arith, p, a, h)

  HashesOf-cons :
      (b : Bool) (d : Chain K V) (e : Entry K V) (r : Option (Chain K V))
      → P e.hash
      → Hashes d
      → HashesOf r
      → HashesOf (if b then some d else Option.map (λ c. e ∷ c) r)
  HashesOf-cons b d e none p a h = ground (arith, a)
  HashesOf-cons b d e (some c) p a h = ground (arith, p, a, h)

  pub replace-Hashes :
      (h : ℕ) (k : K) (v : V) (c : Chain K V) → Hashes c → HashesWith (replace h k v c)
  unfolding replace
  replace-Hashes h k v [] a = tt
  replace-Hashes h k v (e ∷ c) a =
      HashesWith-cons (hit e h k) e.value (record e { value = v } ∷ c) e (replace h k v c) a.0 a
        (replace-Hashes h k v c a.1)

  pub unlink-Hashes : (h : ℕ) (k : K) (c : Chain K V) → Hashes c → HashesWith (unlink h k c)
  unfolding unlink
  unlink-Hashes h k [] a = tt
  unlink-Hashes h k (e ∷ c) a =
      HashesWith-cons (hit e h k) e.value c e (unlink h k c) a.0 a.1 (unlink-Hashes h k c a.1)

  pub modify-Hashes :
      (h : ℕ) (k : K) (f : V → V) (c : Chain K V) → Hashes c → HashesOf (modify h k f c)
  unfolding modify
  modify-Hashes h k f [] a = tt
  modify-Hashes h k f (e ∷ c) a =
      HashesOf-cons (hit e h k) (record e { value = f e.value } ∷ c) e (modify h k f c) a.0 a
        (modify-Hashes h k f c a.1)
