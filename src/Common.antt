-- ===== src/Common.antt =====
-- pkg/common: the tiers, the error values and the cache entries that all parts share.
pub mod Errors
pub mod Retryable
pub mod Entry
pub mod Layers
