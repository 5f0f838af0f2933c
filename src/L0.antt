-- ===== src/L0.antt =====
-- pkg/l0: the sharded in-memory cache.
pub mod State
pub mod Shard
pub mod Clock
pub mod Ops
pub mod Queries
pub mod Candidates
pub mod Limits
pub mod Snapshot
pub mod Spec
pub mod Sample
mod Tests
