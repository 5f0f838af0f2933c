-- ===== src/Common/Entry.antt =====
-- pkg/common/errors.go and consts.go: cache entries and the constants of the caches.
-- A point in time is the number of nanoseconds on the monotonic clock.
use tieredcache.Base.{
  ℕ, ◌+◌, ◌-◌, ◌*◌, ◌/◌, Bool, false, Bytes, length, ltb, ◌==◌, if◌then◌else◌, ℤ, pos, negsuc,
}
use tieredcache.Common.Errors.{Tier, l0}

abbrev pub default_l0_shard_count : ℕ
default_l0_shard_count = 64

abbrev pub weighted_unit_bytes : ℕ
weighted_unit_bytes = 4096

abbrev pub min_frequency_size : ℕ
min_frequency_size = 1024

abbrev pub wal_entry_channel_buffer : ℕ
wal_entry_channel_buffer = 100

abbrev pub error_channel_buffer : ℕ
error_channel_buffer = 10

abbrev pub wal_header_size : ℕ
wal_header_size = 8

abbrev pub max_wal_entry_size : ℕ
max_wal_entry_size = 1024 * 1024

abbrev pub default_max_replay_workers : ℕ
default_max_replay_workers = 4

abbrev pub default_checkpoint_interval : ℕ
default_checkpoint_interval = 10000

pub record CacheEntry : Type 0 where
  pub key : Bytes
  pub value : Bytes
  pub tier : Tier
  pub size : ℕ
  pub weight : ℕ
  pub created_at : ℕ
  pub accessed_at : ℕ
  pub access_count : ℕ
  pub ttl : ℤ

-- `NewCacheEntry`
unfoldable pub new_cache_entry : Bytes → Bytes → ℤ → ℕ → CacheEntry
new_cache_entry k v t now =
    let n = length v in
    record {
      key = k;
      value = v;
      tier = l0;
      size = n;
      weight = (n + weighted_unit_bytes - 1) / weighted_unit_bytes;
      created_at = now;
      accessed_at = now;
      access_count = 1;
      ttl = t;
    }

-- The test of `IsExpired` on the fields that it reads. `time.Since` a time that lies ahead is
-- negative, and so above no positive TTL: `now - created` stops at 0, which answers the same.
abbrev pub is_expired_at : ℤ → ℕ → ℕ → Bool
is_expired_at (negsuc _) created now = false
is_expired_at (pos t) created now = if t == 0 then false else ltb t (now - created)

-- `IsExpired`
abbrev pub is_expired : CacheEntry → ℕ → Bool
is_expired e now = is_expired_at e.ttl e.created_at now
