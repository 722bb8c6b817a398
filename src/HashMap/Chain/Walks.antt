-- ===== src/HashMap/Chain/Walks.antt =====
-- atomic/hashmap.rs: the walks of a chain against lookups before and after them.
use mathlib.Core.Option
use crossync.Prelude.{
  ℕ, suc, ◌≡◌, refl, Bool, true, false, ◌&&◌, Option, none, some, [], ◌∷◌, arith, ◌==◌,
  if◌then◌else◌, length,
}
use crossync.HashMap.Key.{HashKey, same_congr, same_congr_left}
use crossync.HashMap.Chain.{Entry, Chain, hit, find, contains, modify, replace, unlink, Unique}

-- Whether there is a value.
abbrev pub present {ℓ} : {V : Type ℓ} → Option V → Bool
present none = false
present (some _) = true

module _ {ℓ} {K V : Type ℓ} ⦃hk : HashKey K⦄ where
  pub find_nil : (h : ℕ) (k : K) → find {V = V} h k [] ≡ none
  unfolding find
  find_nil h k = refl

  pub find-cons :
      (h : ℕ) (k : K) (e : Entry K V) (c : Chain K V)
      → find h k (e ∷ c) ≡ (if hit e h k then some e.value else find h k c)
  unfolding find
  find-cons h k e c = refl

  pub contains_lem : (h : ℕ) (k : K) (c : Chain K V) → contains h k c ≡ present (find h k c)
  unfolding contains find
  contains_lem h k [] = refl
  contains_lem h k (e ∷ c) = ground (arith, contains_lem h k c)

  -- Equal keys with equal hashes find the same.
  pub find_congr : (h : ℕ) (k j : K) (c : Chain K V) → hk.same k j ≡ true → find h k c ≡ find h j c
  unfolding find
  find_congr h k j [] s = refl
  find_congr h k j (e ∷ c) s = ground (arith, same_congr k j e.key, find_congr h k j c)

  -- What `replace` promises, with any hash and key `g` and `j` looked up before and after.
  abbrev pub Replaced : ℕ → K → V → Chain K V → ℕ → K → Option (V × Chain K V) → Type ℓ
  Replaced h k v c g j none = find h k c ≡ none
  Replaced h k v c g j (some (old, c')) =
      (find h k c ≡ some old)
      × (find g j c' ≡ (if h == g && hk.same k j then some v else find g j c))
      × (length c' ≡ length c)

  replace_step :
      (h : ℕ) (k : K) (v : V) (e : Entry K V) (c : Chain K V) (g : ℕ) (j : K)
      → (r : Option (V × Chain K V)) → Replaced h k v c g j r
      → Replaced h k v (e ∷ c) g j (
          if hit e h k
          then some (e.value, record e { value = v } ∷ c)
          else Option.map (λ r. (r.0, e ∷ r.1)) r)
  unfolding find
  replace_step h k v e c g j none a =
      ground (arith, a, same_congr k j e.key, same_congr_left e.key k j)
  replace_step h k v e c g j (some (old, c')) a =
      ground (arith, a, same_congr k j e.key, same_congr_left e.key k j)

  pub replace-Replaced :
      (h : ℕ) (k : K) (v : V) (c : Chain K V) (g : ℕ) (j : K)
      → Replaced h k v c g j (replace h k v c)
  unfolding find replace
  replace-Replaced h k v [] g j = refl
  replace-Replaced h k v (e ∷ c) g j =
      replace_step h k v e c g j (replace h k v c) (replace-Replaced h k v c g j)

  -- What `modify` promises.
  abbrev pub Modified : ℕ → K → (V → V) → Chain K V → ℕ → K → Option (Chain K V) → Type ℓ
  Modified h k f c g j none = find h k c ≡ none
  Modified h k f c g j (some c') =
      (find g j c' ≡ (if h == g && hk.same k j then Option.map f (find h k c) else find g j c))
      × (length c' ≡ length c)
      × (present (find h k c) ≡ true)

  modify_step :
      (h : ℕ) (k : K) (f : V → V) (e : Entry K V) (c : Chain K V) (g : ℕ) (j : K)
      → (r : Option (Chain K V)) → Modified h k f c g j r
      → Modified h k f (e ∷ c) g j (
          if hit e h k
          then some (record e { value = f e.value } ∷ c)
          else Option.map (λ c'. e ∷ c') r)
  unfolding find
  modify_step h k f e c g j none a =
      ground (arith, a, same_congr k j e.key, same_congr_left e.key k j)
  modify_step h k f e c g j (some c') a =
      ground (arith, a, same_congr k j e.key, same_congr_left e.key k j)

  pub modify-Modified :
      (h : ℕ) (k : K) (f : V → V) (c : Chain K V) (g : ℕ) (j : K)
      → Modified h k f c g j (modify h k f c)
  unfolding find modify
  modify-Modified h k f [] g j = refl
  modify-Modified h k f (e ∷ c) g j =
      modify_step h k f e c g j (modify h k f c) (modify-Modified h k f c g j)

  -- What `unlink` promises of a chain without duplicates.
  abbrev pub Unlinked : ℕ → K → Chain K V → ℕ → K → Option (V × Chain K V) → Type ℓ
  Unlinked h k c g j none = find h k c ≡ none
  Unlinked h k c g j (some (old, c')) =
      (find h k c ≡ some old)
      × (find g j c' ≡ (if h == g && hk.same k j then none else find g j c))
      × (length c ≡ suc (length c'))

  unlink_step :
      (h : ℕ) (k : K) (e : Entry K V) (c : Chain K V) (g : ℕ) (j : K)
      → find e.hash e.key c ≡ none
      → (r : Option (V × Chain K V)) → Unlinked h k c g j r
      → Unlinked h k
          (e ∷ c)
          g
          j
          (if hit e h k then some (e.value, c) else Option.map (λ r. (r.0, e ∷ r.1)) r)
  unfolding find
  unlink_step h k e c g j u none a =
      ground (arith, a, same_congr k j e.key, same_congr_left e.key k j, find_congr g e.key j c)
  unlink_step h k e c g j u (some (old, c')) a =
      ground (arith, a, same_congr k j e.key, same_congr_left e.key k j, find_congr g e.key j c)

  pub unlink-Unlinked :
      (h : ℕ) (k : K) (c : Chain K V) (g : ℕ) (j : K) → Unique c → Unlinked h k c g j (unlink h k c)
  unfolding find unlink
  unlink-Unlinked h k [] g j u = refl
  unlink-Unlinked h k (e ∷ c) g j u =
      unlink_step h k e c g j u.0 (unlink h k c) (unlink-Unlinked h k c g j u.1)
