-- ===== src/Config.antt =====
-- pkg/config/config.go: the configuration of the program.
-- A uint32 is a number, an int or int64 an integer, a float64 its bits (Base/Floats.antt).
pub mod Default
pub mod Validate
pub mod Valid
pub mod Machine
pub mod Load
mod Tests
use tieredcache.Base.{ℕ, Bool, List, Bytes, ℤ, Float}

pub record L0Config : Type 0 where
  pub max_memory_mb : ℕ
  pub max_payload_bytes : ℕ
  pub weighted_unit_bytes : ℕ
  pub shard_count : ℕ
  pub eviction_policy : Bytes
  pub enable_snapshot : Bool
  pub snapshot_interval_sec : ℕ
  pub rebuild_from : Bytes
  pub enable_stats : Bool
  pub snapshot_path : Bytes

pub record L1Config : Type 0 where
  pub max_capacity_gb : Float
  pub shard_count : ℕ
  pub ssd_path : Bytes
  pub value_log_path : Bytes
  pub sync_mode : Bytes
  pub sync_interval_ms : ℕ
  pub compression : Bytes
  pub wal_enabled : Bool
  pub max_tables_size : ℤ
  pub block_cache_size_mb : ℕ
  pub num_goroutines : ℤ

pub record KafkaSinkConfig : Type 0 where
  pub enabled : Bool
  pub brokers : List Bytes
  pub topic : Bytes
  pub batch_size : ℤ
  pub flush_interval_ms : ℤ
  pub compression : Bytes
  pub required_acks : Bytes
  pub retry_backoff_ms : ℤ
  pub max_retries : ℤ

pub record MinIoSinkConfig : Type 0 where
  pub enabled : Bool
  pub endpoint : Bytes
  pub bucket : Bytes
  pub access_key : Bytes
  pub secret_key : Bytes
  pub use_ssl : Bool
  pub prefix : Bytes
  pub batch_size : ℤ
  pub part_size : ℤ

pub record PostgresSinkConfig : Type 0 where
  pub enabled : Bool
  pub host : Bytes
  pub port : ℤ
  pub database : Bytes
  pub username : Bytes
  pub password : Bytes
  pub table : Bytes
  pub batch_size : ℤ
  pub pool_size : ℤ
  pub ssl_mode : Bytes

-- The map `Config` of a backend, of values of any type, is left out: nothing reads it.
pub record FutureBackendConfig : Type 0 where
  pub name : Bytes
  pub backend_type : Bytes
  pub enabled : Bool

pub record SinkConfig : Type 0 where
  pub kafka : KafkaSinkConfig
  pub minio : MinIoSinkConfig
  pub postgres : PostgresSinkConfig
  pub future_backends : List FutureBackendConfig

pub record TieringConfig : Type 0 where
  pub l0_to_l1_threshold : Float
  pub l1_to_l2_threshold : Float
  pub tier_interval_sec : ℕ
  pub batch_size : ℤ
  pub max_workers : ℤ
  pub async_enabled : Bool

pub record L2Config : Type 0 where
  pub enabled : Bool
  pub sinks : SinkConfig
  pub tiering : TieringConfig

pub record ReplayConfig : Type 0 where
  pub wal_path : Bytes
  pub max_replay_workers : ℤ
  pub verify_on_recovery : Bool
  pub enable_l0_prewarm : Bool
  pub prewarm_batch_size : ℤ
  pub prewarm_workers : ℤ
  pub checkpoint_interval : ℤ
  pub enable_checkpoint : Bool
  pub checkpoint_path : Bytes
  pub max_replay_time_sec : ℕ

pub record LoggingConfig : Type 0 where
  pub level : Bytes
  pub format : Bytes
  pub output : Bytes
  pub file_path : Bytes
  pub max_size_mb : ℤ
  pub max_backups : ℤ

pub record TieredCacheConfig : Type 0 where
  pub l0 : L0Config
  pub l1 : L1Config
  pub l2 : L2Config
  pub replay : ReplayConfig
  pub logging : LoggingConfig

pub record Config : Type 0 where
  pub tieredcache : TieredCacheConfig
