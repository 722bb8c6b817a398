-- ===== src/Lib.antt =====
-- crossync: models of the crate's locks and containers.
--
-- Parts, and how they interact. `RawMutex` (src/core/mutex.rs) is a reader-writer lock in one word
-- with two futexes; the typed locks and the containers stand on it. `SpinCell`
-- (src/lock_free/splcell.rs) is the same word without futexes. `AtomicHashMap`
-- (src/atomic/hashmap.rs) is an array of shards, each an array of buckets under a `SerialMutex`
-- (src/core/serial.rs), whose readers all belong to one thread.
-- `AtomicBuffer` (src/atomic/buffer.rs) is a bounded ring with a sequence number in every slot.
-- `AtomicVec` (src/atomic/vec.rs) is a queue in linked blocks, whose emptied blocks go through a stack
-- to a pool, an `AtomicBuffer`.
-- `AtomicArray` (src/atomic/array.rs) is a bounded array, and `Mpmc` (src/channels/mpmc.rs) a channel over
-- an `AtomicVec`, with an `SMutex` and the condition variable of src/core/scondvar.rs.
-- `Coord` (src/core/coord.rs) lets the calls of an `AtomicVec` run side by side or alone, and `SMutex`
-- (src/core/smutex.rs) is a recursive lock for an owner or a group.
-- `Atomic` (src/atomic/atomic.rs) and `AtomicCell` (src/atomic/cell.rs) are a value behind a `SerialMutex`,
-- and `RwLock` (src/sync/rw_lock.rs) one behind a `RawMutex`; the handles of the last two share it by a count.
-- `Backoff` (src/core/backoff.rs) is the counter behind every waiting loop, and `Barrier`
-- (src/sync/barrier.rs) the phases that threads wait for.
--
-- Files. `Prelude` is the shared lists, weights and Boolean tests, `Usize` the methods of usize on
-- sizes, `Threads` the interleavings: a system is a memory with one program counter for each thread,
-- `turn` is one access of one thread, `run` a schedule and `solo` a thread that runs alone.
--   RawMutex  `Word` is the layout of the state word; `Machine.move` is every operation, one shared
--             access at a time, with a constructor of `Pc` for each point between two accesses.
--             `Ownership`, `Parked`, `Progress` and `Sleep` are the proofs.
--   SerialMutex  `Machine.serial_move` is every operation, one shared access of one acquisition at a
--             time; `Owner`, `Exclusion`, `Wakeups` and `Progress` are the proofs.
--   HashMap   `Chain` is a bucket, with the walks of get, contains, insert, remove and with_mut;
--             `Shard` has Shard::insert, remove, contains and try_detach; `Table` the public methods
--             and the constructor, `Refinement` sequences of calls, and `Listing` compares as_vec with get.
--             In each, `Hashes` and `Homes` keep entries where their hash sends them. `Key` is the interface to
--             K: Eq + Hash with its builder.
--   Buffer    `Machine.move` is push and pop, one shared access at a time; `Ring` the arithmetic of
--             positions, `Queue` push, `Pop` pop and `Fresh` the constructor.
--   SpinCell  `Machine.cell_move` is acquisition and release, `Ownership` and `Flags` the proofs.
--   Vec       `Memory` is the blocks, by numbers for pointers; `Ends` is push_internal and pop_raw,
--             `Calls` and `Create` what is made of them, `Access` get and swap, `Scan` the loops over all slots.
--             `Rep` says which list the blocks stand for; `Frame`, `Grow`, `Push`, `Pop` and
--             `Reclaim` keep it, `Queue` to `Reset` are the proofs for the calls. `Api` is sequences of
--             calls, and of calls of a list; `Refinement` compares them.
--   Coord     `Machine.coord_move` is the pins of readers and the intent of a writer, one shared access at a
--             time, and `register` the lanes; `Moves`, `Invariant`, `Exclusion` and `Lanes` the proofs.
--   SMutex    `Machine.smutex_move` is both locks with their recursion, one shared access at a time;
--             `Moves`, `Invariant` and `Exclusion` the proofs.
--   Array     `Machine.array_move` is push and get with the values of the slots, one shared access at a
--             time; `Slots` is the proofs. `Storage.storage_move` is every call with the lock that pins
--             the storage, with reset_with; `Pins`, `Places`, `Pinned` and `Bounds` the proofs.
--   Mpmc      `Channel.call_channel` is the calls of a channel, each a critical section, with the counters
--             of the condition variable; `Refinement` compares them with a list of messages.
--   Guarded   what these values have in common: `Lock` is what a lock promises to its guards, `Machine`
--             a call that takes a guard, works on the value and drops the guard, one access at a time,
--             `History` a sequential account of calls, `Linear` and `Totals` the proofs.
--             SerialMutex/Guards and RawMutex/Guards show that the two locks keep the promise.
--   Atomic    `Ops` and `Kinds` are the methods on the value, `Calls` the calls of threads, `Linear`,
--             `Counter` and `Laws` the proofs.
--   Cell, RwLock  the same for AtomicCell and RwLock.
--   Watch     `Guards` is the guards of src/sync as values, and `Releases` what their drop gives back.
--   Counts    `Machine.count_move` is clone, drop and into_inner of a handle, one access at a time, with
--             increment_ref_count (src/core/mod.rs); `Moves` and `Freed` the proofs.
--   Futex     the threads that wait on a futex, as src/core/futex/mod.rs documents its functions.
--   Parker    `Machine.park_move` is park and unpark (src/core/thread.rs), one shared access at a time, and
--             `CondVar` the same for SCondVar (src/core/scondvar.rs); in both `Moves` and `Wakeups` are the
--             proofs.
--   Chunks    `chunk_indices` of AtomicArray (src/atomic/array.rs), the split into chunks for parallel
--             work; `Cover` is the proof.
--   Backoff, Barrier  the operations, with the proofs in `Laws` and `Phases`.
-- The modules named Tests hold runs at concrete inputs.
--
-- Integers. A word of the program is a natural number below 2 ^ 64 with its wrap written out; futex
-- words wrap at 2 ^ 32. Memory is sequentially consistent: an access takes effect at once, so what
-- the orderings of the accesses allow beyond that is not modelled.
--
-- Fuel. A loop that shares memory is a walk of `move`, which needs no fuel: a schedule is a list of
-- turns, of any length. Where `solo` takes a number of accesses, that number is part of the result
-- that is stated. `chunks_from` has as much fuel as the array has entries, and every turn of its loop
-- passes at least one. In `Vec`, the loops that pop every value have as much fuel as values and one
-- more, `reclaim_retired` as much as blocks are retired, and `scan` a turn for each block from the head's
-- to the tail's. `trailing_zeros` looks at 64 bits, the width of a usize.
--
-- Not modelled. The system calls behind a futex, allocation, the reference counts of the containers and
-- Debug output. A futex wait may return at any time, and in all but `Parker`,
-- `CondVar` and `SerialMutex`, where a wake is needed or a spurious return, whether it does is left to
-- the schedule.
-- `Vec` is what one thread does that is alone, or has the coordination lock to itself: no
-- compare-exchange fails, and what would wait for another thread returns none. Its Drop
-- is left out, and its pool is the queue that an AtomicBuffer stands for. `Mpmc` takes
-- the exclusion of its mutex for granted, which `SMutex` is about, and a turn of a waiting loop as a
-- call. In `Array/Storage` the values are left out, and when a slot is written and its lock granted is
-- left to the schedule; in `CondVar` so are the two steps of the mutex.
-- A closure under a guard is a function of the value, which neither panics nor calls back. The string
-- methods of Atomic have no model, and the queries of the guards of src/sync have none.
pub mod Array
pub mod Atomic
pub mod Backoff
pub mod Barrier
pub mod Buffer
pub mod Cell
pub mod Chunks
pub mod CondVar
pub mod Coord
pub mod Counts
pub mod Futex
pub mod Guarded
pub mod HashMap
pub mod Mpmc
pub mod Parker
pub mod Prelude
pub mod RawMutex
pub mod RwLock
pub mod SMutex
pub mod SerialMutex
pub mod SpinCell
pub mod Threads
pub mod Usize
pub mod Vec
pub mod Watch
