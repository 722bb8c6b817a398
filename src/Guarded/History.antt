-- ===== src/Guarded/History.antt =====
-- What a sequence of calls, one after the other, does to a value and answers to each thread.
use crossync.Prelude.{
  ℕ, ◌<◌, ◌≡◌, Bool, true, false, ◌==◌, if◌then◌else◌, List, [], ◌∷◌, Option, none, some, map, All,
  get_elem?, length,
}
use crossync.Threads.{System}
use crossync.Guarded.Lock.{Lock, is_try}
use crossync.Guarded.Machine.{Calls, Entry, stored, GuardedMem, GuardedTask, resting}

-- A call of a thread, and whether it got the lock.
pub record Event (K : Calls) : Type 0 where
  pub thread : ℕ
  pub call : K.Call
  pub took : Bool

module _ (K : Calls) where
  abbrev pub effect : Event K → K.Value → K.Value
  effect e v = if e.took then stored K e.call (K.body e.call v).1 v else v

  abbrev pub answer : Event K → K.Value → Option K.Reply
  answer e v = if e.took then some (K.body e.call v).0 else none

  -- The value after the calls, the last one first.
  abbrev pub replay : List (Event K) → K.Value → K.Value
  replay [] v = v
  replay (e ∷ es) v = effect e (replay es v)

  -- The calls of one thread with their answers, the last one first.
  abbrev pub entries : List (Event K) → K.Value → ℕ → List (Entry K)
  entries [] v i = []
  entries (e ∷ es) v i =
      let rest = entries es v i in
      if e.thread == i then (e.call, answer e (replay es v)) ∷ rest else rest

  -- Only a try fails to get the lock.
  abbrev pub Blocks : Event K → Type 0
  Blocks e = e.took ≡ false → is_try (K.mode e.call) ≡ true

module _ (L : Lock) (K : Calls) (v₀ : K.Value) where
  -- Calls in an order that explains the value and every thread's results, in its own order.
  pub record Explains (m : GuardedMem L K) (ts : List (GuardedTask L K)) (es : List (Event K))
      : Type 0 where
    pub value_exact : m.value ≡ replay K es v₀
    pub logs_exact :
        (i : ℕ) (t : GuardedTask L K) → get_elem? ts i ≡ some t → t.log ≡ entries K es v₀ i
    pub blocks : All (Blocks K) es
    pub known : All (λ e. e.thread < length ts) es

  -- Threads that have called nothing yet, with the lock as it was made.
  abbrev pub guarded_start : L.Mem → List L.Thread → System (GuardedMem L K) (GuardedTask L K)
  guarded_start k ps = record {
    mem = record { lock = k; value = v₀ };
    threads = map (λ p. record { lock = p; stage = resting; log = [] }) ps;
  }
