-- ===== src/HashMap.antt =====
-- atomic/hashmap.rs: the sharded hash map. `Chain` is one bucket, `Shard` an array of buckets,
-- `Table` the map over its shards; each has its laws in children; `Refinement` is sequences of calls,
-- and `Listing` what `as_vec` lists after them.
pub mod Key
pub mod Chain
pub mod Shard
pub mod Table
pub mod Refinement
pub mod Listing
mod Tests
