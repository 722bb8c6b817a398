-- ===== src/HashMap/Key.antt =====
-- atomic/hashmap.rs: what the map asks of its keys, `K: Eq + Hash` with its builder of hashers.
-- `==` is an equivalence that need not be identity, and equal keys have equal hashes.
use crossync.Prelude.{ℕ, ◌^◌, ◌<◌, ◌≡◌, Bool, true, arith}

pub record HashKey {ℓ} (K : Type ℓ) : Type ℓ where
  pub same : K → K → Bool
  pub hash : K → ℕ
  pub same_refl : (a : K) → same a a ≡ true
  pub same_symm : (a b : K) → same a b ≡ same b a
  pub same_trans : (a b c : K) → same a b ≡ true → same b c ≡ true → same a c ≡ true
  pub hash-same : (a b : K) → same a b ≡ true → hash a ≡ hash b
  pub hash-lt : (a : K) → hash a < 2 ^ 64

module _ {ℓ} {K : Type ℓ} ⦃key : HashKey K⦄ where
  -- Equal keys are told from a third by nothing.
  pub same_congr : (a b c : K) → key.same a b ≡ true → key.same c a ≡ key.same c b
  same_congr a b c e = ground (arith, key.same_trans c a b, key.same_trans c b a, key.same_symm a b)

  pub same_congr_left : (a b c : K) → key.same a b ≡ true → key.same a c ≡ key.same b c
  same_congr_left a b c e = ground (arith, same_congr a b c e, key.same_symm a c, key.same_symm b c)
