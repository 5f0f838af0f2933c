-- ===== src/Replay.antt =====
-- pkg/replay: the write-ahead log and recovery from it.
pub mod Entry
pub mod Frame
pub mod Log
pub mod Manager
pub mod Pool
pub mod Sample
mod Tests
mod PoolTests
