-- ===== src/Config/Default.antt =====
-- pkg/config/config.go: `DefaultConfig`, on a machine with a number of cores.
use tieredcache.Base.{ℕ, ◌*◌, ◌%◌, ◌^◌, true, false, [], ◌∷◌, str, ltb, if◌then◌else◌, pos}
use tieredcache.Common.Entry.{
  weighted_unit_bytes, default_max_replay_workers, default_checkpoint_interval,
}
use tieredcache.Config.{
  Config, L0Config, L1Config, L2Config, KafkaSinkConfig, MinIoSinkConfig, PostgresSinkConfig,
  TieringConfig, ReplayConfig, LoggingConfig,
}

unfoldable pub default_l0 : ℕ → L0Config
default_l0 num_cpu = record {
  max_memory_mb = 8192;
  max_payload_bytes = 32768;
  weighted_unit_bytes = weighted_unit_bytes;
  shard_count = num_cpu * 2 % 2 ^ 32;
  eviction_policy = str "clock_pro";
  enable_snapshot = true;
  snapshot_interval_sec = 300;
  rebuild_from = str "snapshot";
  enable_stats = true;
  snapshot_path = str "./data/l0_snapshots";
}

-- The capacity is 10240.0.
unfoldable pub default_l1 : ℕ → L1Config
default_l1 num_cpu = record {
  max_capacity_gb = 0x40C4000000000000;
  shard_count = num_cpu % 2 ^ 32;
  ssd_path = str "./data/l1";
  value_log_path = str "./data/l1_vlog";
  sync_mode = str "immediate";
  sync_interval_ms = 1000;
  compression = str "zstd";
  wal_enabled = true;
  max_tables_size = pos (256 * 2 ^ 20);
  block_cache_size_mb = 0;
  num_goroutines = pos 8;
}

abbrev default_kafka : KafkaSinkConfig
default_kafka = record {
  enabled = true;
  brokers = str "localhost:9092" ∷ [];
  topic = str "tieredcache-cold";
  batch_size = pos 100;
  flush_interval_ms = pos 1000;
  compression = str "lz4";
  required_acks = str "1";
  retry_backoff_ms = pos 100;
  max_retries = pos 3;
}

abbrev default_minio : MinIoSinkConfig
default_minio = record {
  enabled = false;
  endpoint = str "localhost:9000";
  bucket = str "tieredcache";
  access_key = str "minioadmin";
  secret_key = str "minioadmin";
  use_ssl = false;
  prefix = str "cold/";
  batch_size = pos 50;
  part_size = pos (5 * 2 ^ 20);
}

abbrev default_postgres : PostgresSinkConfig
default_postgres = record {
  enabled = false;
  host = str "localhost";
  port = pos 5432;
  database = str "tieredcache";
  username = str "postgres";
  password = [];
  table = str "cold_data";
  batch_size = pos 100;
  pool_size = pos 10;
  ssl_mode = str "disable";
}

-- The thresholds are 0.85 and 0.90.
abbrev default_tiering : TieringConfig
default_tiering = record {
  l0_to_l1_threshold = 0x3FEB333333333333;
  l1_to_l2_threshold = 0x3FECCCCCCCCCCCCD;
  tier_interval_sec = 60;
  batch_size = pos 1000;
  max_workers = pos 4;
  async_enabled = true;
}

unfoldable pub default_l2 : L2Config
default_l2 = record {
  enabled = true;
  sinks = record {
    kafka = default_kafka;
    minio = default_minio;
    postgres = default_postgres;
    future_backends = [];
  };
  tiering = default_tiering;
}

unfoldable pub default_replay : ReplayConfig
default_replay = record {
  wal_path = str "./data/wal";
  max_replay_workers = pos default_max_replay_workers;
  verify_on_recovery = true;
  enable_l0_prewarm = true;
  prewarm_batch_size = pos 1000;
  prewarm_workers = pos 4;
  checkpoint_interval = pos default_checkpoint_interval;
  enable_checkpoint = true;
  checkpoint_path = str "./data/checkpoints";
  max_replay_time_sec = 300;
}

unfoldable pub default_logging : LoggingConfig
default_logging = record {
  level = str "info";
  format = str "json";
  output = str "stdout";
  file_path = str "./logs/tieredcache.log";
  max_size_mb = pos 100;
  max_backups = pos 10;
}

-- `numCPU` after its minimum is set
abbrev pub counted_cpus : ℕ → ℕ
counted_cpus n = if ltb n 4 then 4 else n

-- `DefaultConfig`, where `runtime.NumCPU` is `n`.
unfoldable pub default_config : ℕ → Config
default_config n = record {
  tieredcache = record {
    l0 = default_l0 (counted_cpus n);
    l1 = default_l1 (counted_cpus n);
    l2 = default_l2;
    replay = default_replay;
    logging = default_logging;
  };
}
