-- ===== src/RawMutex/Word.antt =====
-- core/mutex.rs: the constants and the bit layout of the state word. A word is below 2 ^ 64, so
-- `& ONE_WRITER` clears the two low bits, `& READERS_PARKED` is bit 0 and `& WRITERS_PARKED` bit 1.
use crossync.Prelude.{
  ℕ, ◌+◌, ◌-◌, ◌*◌, ◌/◌, ◌%◌, ◌^◌, ◌<◌, ◌≡◌, ◌↔◌, Bool, true, false, not, ◌&&◌, ltb, ◌==◌, arith,
  if◌then◌else◌,
}

abbrev pub unlocked : ℕ
unlocked = 0

abbrev pub one_reader : ℕ
one_reader = 4

-- `!(READERS_PARKED | WRITERS_PARKED)` on a usize of 64 bits
abbrev pub one_writer : ℕ
one_writer = 2 ^ 64 - 4

-- `state & ONE_WRITER`
abbrev pub holder_bits : ℕ → ℕ
holder_bits state = state / 4 * 4

-- `state & READERS_PARKED != 0`
abbrev pub readers_parked : ℕ → Bool
readers_parked state = state % 2 == 1

-- `state & WRITERS_PARKED != 0`
abbrev pub writers_parked : ℕ → Bool
writers_parked state = state / 2 % 2 == 1

abbrev pub is_writer_locked : ℕ → Bool
is_writer_locked state = holder_bits state == one_writer

abbrev pub readers_count : ℕ → ℕ
readers_count state = if is_writer_locked state then 0 else holder_bits state / 4

abbrev pub is_locked_shared : ℕ → Bool
is_locked_shared state = not (is_writer_locked state) && ltb 0 (readers_count state)

abbrev pub is_locked : ℕ → Bool
is_locked state = not (state == unlocked)

-- The test before a reader's compare-exchange: `checked_add(ONE_READER)` gives a value, that value
-- is not the writer's pattern, and no writer is parked.
abbrev pub admits_reader : ℕ → Bool
admits_reader state =
    ltb (state + one_reader) (2 ^ 64)
    && not (is_writer_locked (state + one_reader))
    && not (writers_parked state)

-- What `unlock_all_shared` makes of a word with readers: `state - ONE_READER * count`, wrapping.
abbrev pub without_readers : ℕ → ℕ
without_readers state = (state + 2 ^ 64 - one_reader * readers_count state % 2 ^ 64) % 2 ^ 64

-- `unlock_all_shared` with its compare-exchange won: the word, and whether writers are woken.
pub unlock_all_shared : ℕ → ℕ × Bool
unlock_all_shared state =
    if readers_count state == 0
    then (state, false)
    else (without_readers state, readers_count (without_readers state) == 0 && writers_parked state)

-- `unlock_all_shared` takes every reader off a word that no writer holds and keeps the parked
-- flags, and wakes the writers exactly if it took a reader off and a writer is parked.
pub unlock_all_shared_lem :
    (state : ℕ)
    → state < 2 ^ 64
    → is_writer_locked state ≡ false
    → ((unlock_all_shared state).0 ≡ state % 4)
      × (((unlock_all_shared state).1 ≡ true)
          ↔ ((0 < readers_count state) × (writers_parked state ≡ true)))
unfolding unlock_all_shared
unlock_all_shared_lem state lt free = ground arith
