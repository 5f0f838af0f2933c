-- ===== src/Tiered.antt =====
-- pkg/tieredcache/tieredcache.go: the cache over all tiers.
pub mod State
pub mod Tiering
pub mod Moved
pub mod Calls
pub mod Updates
pub mod Start
pub mod Applied
pub mod Started
pub mod Figures
pub mod PreWarm
pub mod Loaded
pub mod Warmed
mod Tests
mod StartTests
