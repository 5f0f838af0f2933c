-- ===== src/L1.antt =====
-- pkg/l1/l1_badger.go: the SSD cache over shards of a Badger database.
pub mod Badger
pub mod State
pub mod Reads
pub mod Whole
pub mod Open
pub mod Opened
pub mod Iterate
pub mod Walked
pub mod Sample
mod OpenTests
mod Tests
