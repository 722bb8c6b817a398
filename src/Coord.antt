-- ===== src/Coord.antt =====
-- core/coord.rs: `Coord`, the pins of readers in lanes of their own against the intent of a writer.
-- `Machine` is its operations one shared access at a time, `Moves` what one access does to the
-- counts, `Invariant` what every schedule keeps, `Exclusion` the proof, and `Lanes` how threads get
-- their lanes.
pub mod Machine
pub mod Moves
pub mod Invariant
pub mod Exclusion
pub mod Lanes
mod Tests
