-- ===== src/L2.antt =====
-- pkg/l2: queues of failed writes to cold storage, and which errors are worth a retry.
pub mod Queue
pub mod Bound
pub mod Contains
pub mod Sinks
pub mod Counted
pub mod Backoff
mod Tests
mod SinkTests
