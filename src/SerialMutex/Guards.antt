-- ===== src/SerialMutex/Guards.antt =====
-- core/serial.rs: the lock as its guards use it (`read_guard`, `write_guard`, `try_write_guard` and
-- the drop of a `SerialGuard`).
use crossync.Prelude.{ℕ, ◌^◌, ◌≡◌, arith, Bool, false, if◌then◌else◌, List, [], ◌∷◌, All, refl}
use crossync.Guarded.Lock.{
  shared, exclusive, try_shared, try_exclusive, Request, acquire, release, proceed, Place, out,
  coming, inside, leaving, stuck, Lock, Follows, IsLawful,
}
use crossync.SerialMutex.Machine.{
  SerialMem, SerialOp, lock_read, lock_write, try_write, unlock, stay, SerialChoice, Stage, idle,
  holds, try_cas, lock_cas, slow_sequence, slow_state, slow_cas, slow_park, slow_wait, asleep,
  panicked, Task, slow_branch, release_read, serial_call, serial_step, serial_move,
}
use crossync.SerialMutex.Owner.{share, Ledger, move-Ledger}
use crossync.SerialMutex.Exclusion.{Ledger-alone, serial_start}

-- There is no try for reading.
abbrev serial_op : Request → SerialOp
serial_op (acquire shared) = lock_read
serial_op (acquire exclusive) = lock_write
serial_op (acquire try_exclusive) = try_write
serial_op (acquire try_shared) = stay
serial_op release = unlock
serial_op proceed = stay

abbrev serial_place : Stage → Place
serial_place idle = out
serial_place (holds read) = inside read
serial_place try_cas = coming try_exclusive
serial_place (lock_cas read) = coming (if read then shared else exclusive)
serial_place (slow_sequence read) = coming (if read then shared else exclusive)
serial_place (slow_state read _) = coming (if read then shared else exclusive)
serial_place (slow_cas read _) = coming (if read then shared else exclusive)
serial_place (slow_park read _ _) = coming (if read then shared else exclusive)
serial_place (slow_wait read _) = coming (if read then shared else exclusive)
serial_place (asleep read) = coming (if read then shared else exclusive)
serial_place panicked = stuck
serial_place _ = leaving

abbrev pub serial_lock : Lock
serial_lock = record {
  Mem = SerialMem;
  Thread = Task;
  Choice = SerialChoice;
  ask = λ q c. record c { op = serial_op q };
  move = serial_move;
  place = λ t. serial_place t.stage;
}

serial_step-Follows :
    (q : Request) (c : SerialChoice) (owner : ℕ) (m : SerialMem) (s : Stage)
    → Follows q
        (serial_place s)
        (serial_place (serial_step (record c { op = serial_op q }) owner m s).1)
unfolding serial_step serial_call slow_branch release_read
serial_step-Follows q c owner m s = ground arith

inside-share :
    (s : Stage) (read : Bool)
    → serial_place s ≡ inside read
    → share s ≡ (if read then 1 else 2 ^ 30)
inside-share s read e = ground (arith, e)

pub serial_lock-IsLawful : IsLawful serial_lock Ledger
unfolding serial_move
serial_lock-IsLawful = record {
  keeps = λ c m ts i t e h. move-Ledger c m ts i t.owner t.stage e h;
  follows = λ q c m t. serial_step-Follows q c t.owner m t.stage;
  alone = λ m ts i j p q read h hi hj writing within.
      Ledger-alone m ts h i j p q hi hj (inside-share p.stage false writing)
        (ground (arith, inside-share q.stage read within));
}

pub serial_start-out :
    (owners : List ℕ) → All (λ p. serial_lock.place p ≡ out) (serial_start owners).threads
serial_start-out [] = tt
serial_start-out (a ∷ owners) = (refl, serial_start-out owners)
