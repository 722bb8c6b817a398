-- ===== src/Atomic/Ops.antt =====
-- atomic/atomic.rs: what the methods of `Atomic<T>` return and leave, from the value that they find
-- under their guard. The traits of `T` are its operations, of which nothing is assumed.
use crossync.Prelude.{Bool, if◌then◌else◌, Option, none, some}

-- `Result`
pub data Outcome (A E : Type 0) : Type 0 where
  ok : A → Outcome A E
  err : E → Outcome A E

-- `Default`, `PartialEq`, `PartialOrd` and the operators.
pub record Traits (T : Type 0) : Type 0 where
  pub default : T
  pub equal : T → T → Bool
  pub greater : T → T → Bool
  pub less : T → T → Bool
  pub add : T → T → T
  pub sub : T → T → T
  pub bit_and : T → T → T
  pub bit_or : T → T → T
  pub bit_xor : T → T → T
  pub bit_not : T → T

module _ {T R : Type 0} where
  abbrev pub with : (T → R) → T → R × T
  with f value = (f value, value)

  abbrev pub with_mut : (T → R × T) → T → R × T
  with_mut f value = f value

module _ {T : Type 0} where
  abbrev pub replace_with : (T → T) → T → T × T
  replace_with f value = (value, f value)

  abbrev pub update : (T → T) → T → Unit {0} × T
  update f value = (tt, f value)

  -- What the closure has changed stays, also when it returns false.
  abbrev pub try_update : (T → Bool × T) → T → Outcome (Unit {0}) (Unit {0}) × T
  try_update f value = let (done, changed) = f value in (if done then ok tt else err tt, changed)

  abbrev pub load : T → T × T
  load value = (value, value)

  abbrev pub swap : T → T → T × T
  swap val value = (value, val)

  abbrev pub store : T → T → Unit {0} × T
  store val value = (tt, (swap val value).1)

  abbrev pub load_copy : T → T × T
  load_copy value = (value, value)

  abbrev pub swap_copy : T → T → T × T
  swap_copy val old = (old, val)

  abbrev updated : T → Option T → Outcome T T × T
  updated old (some new) = (ok old, new)
  updated old none = (err old, old)

  abbrev pub fetch_update : (T → Option T) → T → Outcome T T × T
  fetch_update f old = updated old (f old)

module _ {T : Type 0} ⦃traits : Traits T⦄ where
  abbrev pub take_default : T → T × T
  take_default value = swap traits.default value

  abbrev pub compare_exchange : T → T → T → Outcome T T × T
  compare_exchange current new val =
      if traits.equal val current then (ok val, new) else (err val, val)

  abbrev pub compare_exchange_weak : T → T → T → Outcome T T × T
  compare_exchange_weak current new val = compare_exchange current new val

  abbrev either : Outcome T T → T
  either (ok val) = val
  either (err val) = val

  abbrev pub compare_and_swap : T → T → T → T × T
  compare_and_swap current new value =
      let (r, after) = compare_exchange current new value in (either r, after)

  abbrev pub fetch_add : T → T → T × T
  fetch_add val old = (old, traits.add old val)

  abbrev pub fetch_sub : T → T → T × T
  fetch_sub val old = (old, traits.sub old val)

  abbrev pub fetch_and_bits : T → T → T × T
  fetch_and_bits val old = (old, traits.bit_and old val)

  abbrev pub fetch_or_bits : T → T → T × T
  fetch_or_bits val old = (old, traits.bit_or old val)

  abbrev pub fetch_xor_bits : T → T → T × T
  fetch_xor_bits val old = (old, traits.bit_xor old val)

  abbrev pub fetch_max : T → T → T × T
  fetch_max val old = (old, if traits.greater val old then val else old)

  abbrev pub fetch_min : T → T → T × T
  fetch_min val old = (old, if traits.less val old then val else old)

  -- The method of the integer types.
  abbrev pub fetch_nand_bits : T → T → T × T
  fetch_nand_bits val old = (old, traits.bit_not (traits.bit_and old val))
