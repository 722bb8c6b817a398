-- ===== src/SerialMutex/Exclusion.antt =====
-- core/serial.rs: which acquisitions hold the lock together.
use crossync.Prelude.{
  All-get, sum_by-others, w-le-others, le-sum_by, ℕ, ◌<◌, ◌^◌, ◌≡◌, refl, sym, arith, List, [], ◌∷◌,
  ◌∙◌, some, get_elem?, sum_by, ◌↔◌, map, All,
}
use native.Mathlib.Decide.{ℕ_discrete}
use crossync.Threads.{System, run, run_inv}
use crossync.SerialMutex.Machine.{SerialMem, SerialChoice, Task, idle, owner_of, serial_move}
use crossync.SerialMutex.Owner.{share, share_of, Identified, Ledger, move-Ledger}

module _ (m : SerialMem) (ts : List Task) (h : Ledger m ts) where
  -- The word is owned by the thread of whoever holds the lock.
  Ledger-owner :
      (i : ℕ) (t : Task) → get_elem? ts i ≡ some t → 0 < share t.stage → owner_of m.state ≡ t.owner
  Ledger-owner i t e some_share =
      let known = (All-get Identified ts i h.knows e).0 in
      ground (arith, (h.books t.owner known).shares, le-sum_by (share_of t.owner) ts i t e)

  Ledger-one_owner :
      (i j : ℕ) (p q : Task)
      → get_elem? ts i ≡ some p
      → get_elem? ts j ≡ some q
      → 0 < share p.stage
      → 0 < share q.stage
      → p.owner ≡ q.owner
  Ledger-one_owner i j p q hi hj sp sq = sym (Ledger-owner i p hi sp) ∙ Ledger-owner j q hj sq

  pub Ledger-alone :
      (i j : ℕ) (p q : Task)
      → get_elem? ts i ≡ some p
      → get_elem? ts j ≡ some q
      → share p.stage ≡ 2 ^ 30
      → 0 < share q.stage
      → i ≡ j
  Ledger-alone i j p q hi hj sp sq = elim (ℕ_discrete i j) [
    | yes e ↦ e
    | no ne ↦
        let id = (All-get Identified ts i h.knows hi).0 in
        absurd (
          ground (
            arith,
            (h.books p.owner id).shares,
            (h.books p.owner id).form,
            Ledger-one_owner i j p q hi hj (omega (arith, sp)) sq,
            sum_by-others (share_of p.owner) ts i p hi,
            w-le-others (share_of p.owner) ts i j q ne hj,
          ))
  ]

abbrev pub serial_start : List ℕ → System SerialMem Task
serial_start owners = record {
  mem = record { state = 0; wake = 0; queue = record { waiting = 0; woken = 0 } };
  threads = map (λ o. record { owner = o; stage = idle }) owners;
}

no_shares : (o : ℕ) (owners : List ℕ) → sum_by (share_of o) (serial_start owners).threads ≡ 0
no_shares o [] = refl
no_shares o (a ∷ owners) = ground (arith, no_shares o owners)

all_known :
    (owners : List ℕ) → All (λ o. 0 < o) owners → All Identified (serial_start owners).threads
all_known [] h = tt
all_known (a ∷ owners) h = ((h.0, tt), all_known owners h.1)

pub start-Ledger :
    (owners : List ℕ)
    → All (λ o. 0 < o) owners
    → Ledger (serial_start owners).mem (serial_start owners).threads
start-Ledger owners ids = record {
  books = λ o pos. ground (arith, no_shares o owners);
  knows = all_known owners ids;
}

module _ (owners : List ℕ) (ids : All (λ o. 0 < o) owners) (sched : List (ℕ × SerialChoice)) where
  pub run-Ledger :
      Ledger
        (run serial_move sched (serial_start owners)).mem
        (run serial_move sched (serial_start owners)).threads
  unfolding serial_move
  run-Ledger =
      run_inv serial_move Ledger (λ c m ts i t e h. move-Ledger c m ts i t.owner t.stage e h) sched
        (serial_start owners) (start-Ledger owners ids)

  -- Guards that hold a `SerialMutex` at the same time were all acquired by one thread: in every
  -- interleaving of any acquisitions by threads with ids, those of two guards that are held are the
  -- same.
  pub serial_one_owner :
      (i j : ℕ) (p q : Task)
      → get_elem? (run serial_move sched (serial_start owners)).threads i ≡ some p
      → get_elem? (run serial_move sched (serial_start owners)).threads j ≡ some q
      → 0 < share p.stage
      → 0 < share q.stage
      → p.owner ≡ q.owner
  serial_one_owner i j p q hi hj sp sq =
      let s = run serial_move sched (serial_start owners) in
      Ledger-one_owner s.mem s.threads run-Ledger i j p q hi hj sp sq

  -- A write guard excludes every other guard, also of its own thread: in every interleaving of any
  -- acquisitions by threads with ids, if acquisition `i` holds the lock for writing and acquisition
  -- `j` holds it in either mode, they are one.
  pub serial_write_exclusion :
      (i j : ℕ) (p q : Task)
      → get_elem? (run serial_move sched (serial_start owners)).threads i ≡ some p
      → get_elem? (run serial_move sched (serial_start owners)).threads j ≡ some q
      → share p.stage ≡ 2 ^ 30
      → 0 < share q.stage
      → i ≡ j
  serial_write_exclusion i j p q hi hj sp sq =
      let s = run serial_move sched (serial_start owners) in
      Ledger-alone s.mem s.threads run-Ledger i j p q hi hj sp sq

  -- In every reachable state `owned_by_current_thread` is exact: the word carries the id of a thread
  -- exactly if an acquisition of that thread holds the lock.
  pub serial_owner_exact :
      (o : ℕ)
      → 0 < o
      → let s = run serial_move sched (serial_start owners) in
        (owner_of s.mem.state ≡ o) ↔ (0 < sum_by (share_of o) s.threads)
  serial_owner_exact o pos =
      ground (arith, (run-Ledger.books o pos).shares, (run-Ledger.books o pos).free)
