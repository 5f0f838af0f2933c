-- ===== src/Config/Validate.antt =====
-- pkg/config/config.go: `Validate` and the checks of each part.
use tieredcache.Base.{
  ◌*◌, Bool, true, false, List, [], ◌∷◌, ◌++◌, Option, none, some, Bytes, str, bytes_eq, is_empty,
  ltb, ◌==◌, ◌&&◌, ◌||◌, not, if◌then◌else◌, int_not_pos, int_is_zero, int_gt, int_text, Float,
  float_ltb, float_leb, float_zero, float_one,
}
use tieredcache.Common.Errors.{GoError, nil, config, no_value, shown, number, error_text}
use tieredcache.Config.{
  Config, L0Config, L1Config, L2Config, KafkaSinkConfig, MinIoSinkConfig, PostgresSinkConfig,
  TieringConfig, ReplayConfig, LoggingConfig,
}

-- What `%v` prints for a float64 and for a pointer to the configuration.
pub record Formats : Type 0 where
  pub float_text : Float → Bytes
  pub config_text : Config → Bytes

-- 102400.0
abbrev pub max_capacity : Float
max_capacity = 0x40F9000000000000

-- A map from names to `true`, asked for a name.
unfoldable pub one_of : List Bytes → Bytes → Bool
one_of [] s = false
one_of (name ∷ names) s = bytes_eq s name || one_of names s

abbrev pub valid_policies : List Bytes
valid_policies = str "clock_pro" ∷ str "lru" ∷ str "lfu" ∷ str "arc" ∷ []

abbrev pub valid_sync_modes : List Bytes
valid_sync_modes = str "immediate" ∷ str "periodic" ∷ str "disabled" ∷ []

abbrev pub valid_compressions : List Bytes
valid_compressions = str "zstd" ∷ str "snappy" ∷ str "none" ∷ []

abbrev pub valid_levels : List Bytes
valid_levels = str "debug" ∷ str "info" ∷ str "warn" ∷ str "error" ∷ []

abbrev pub valid_formats : List Bytes
valid_formats = str "json" ∷ str "text" ∷ []

abbrev pub valid_outputs : List Bytes
valid_outputs = str "stdout" ∷ str "file" ∷ []

-- `validateL0Config`
unfoldable pub validate_l0 : L0Config → GoError
unfolding one_of
validate_l0 cfg =
    if cfg.max_memory_mb == 0
    then config (str "tieredcache.l0.max_memory_mb") (number cfg.max_memory_mb)
        (str "must be greater than 0") (str "set a valid memory size (e.g., 8192)")
    else if ltb 131072 cfg.max_memory_mb
    then config (str "tieredcache.l0.max_memory_mb") (number cfg.max_memory_mb)
        (str "exceeds maximum (128GB)") (str "reduce to 131072 or less")
    else if cfg.max_payload_bytes == 0
    then config (str "tieredcache.l0.max_payload_bytes") (number cfg.max_payload_bytes)
        (str "must be greater than 0") (str "set a valid payload size (e.g., 32768)")
    else if ltb (1024 * 1024) cfg.max_payload_bytes
    then config (str "tieredcache.l0.max_payload_bytes") (number cfg.max_payload_bytes)
        (str "exceeds maximum (1MB)") (str "reduce to 1048576 or less")
    else if cfg.weighted_unit_bytes == 0
    then config (str "tieredcache.l0.weighted_unit_bytes") (number cfg.weighted_unit_bytes)
        (str "must be greater than 0") (str "use default 4096")
    else if cfg.shard_count == 0
    then config (str "tieredcache.l0.shard_count") (number cfg.shard_count)
        (str "must be greater than 0") (str "use default 64")
    else if ltb 256 cfg.shard_count
    then config (str "tieredcache.l0.shard_count") (number cfg.shard_count)
        (str "exceeds maximum (256)") (str "reduce shard count")
    else if not (one_of valid_policies cfg.eviction_policy)
    then config (str "tieredcache.l0.eviction_policy") (shown cfg.eviction_policy)
        (str "invalid eviction policy") (str "use one of: clock_pro, lru, lfu, arc")
    else if cfg.snapshot_interval_sec == 0
    then config (str "tieredcache.l0.snapshot_interval_sec") (number cfg.snapshot_interval_sec)
        (str "must be greater than 0") (str "use default 300")
    else nil

-- `validateL1Config`
unfoldable pub validate_l1 : Formats → L1Config → GoError
unfolding one_of
validate_l1 formats cfg =
    if float_leb cfg.max_capacity_gb float_zero
    then config (str "tieredcache.l1.max_capacity_gb")
        (shown (formats.float_text cfg.max_capacity_gb)) (str "must be greater than 0")
        (str "set a valid capacity (e.g., 10240 for 10TB)")
    else if float_ltb max_capacity cfg.max_capacity_gb
    then config (str "tieredcache.l1.max_capacity_gb")
        (shown (formats.float_text cfg.max_capacity_gb)) (str "exceeds maximum (100TB = 102400GB)")
        (str "reduce capacity")
    else if cfg.shard_count == 0
    then config (str "tieredcache.l1.shard_count") (number cfg.shard_count)
        (str "must be greater than 0") (str "use default 32")
    else if ltb 128 cfg.shard_count
    then config (str "tieredcache.l1.shard_count") (number cfg.shard_count)
        (str "exceeds maximum (128)") (str "reduce shard count")
    else if is_empty cfg.ssd_path
    then config (str "tieredcache.l1.ssd_path") (shown cfg.ssd_path) (str "cannot be empty")
        (str "provide a valid SSD path")
    else if not (one_of valid_sync_modes cfg.sync_mode)
    then config (str "tieredcache.l1.sync_mode") (shown cfg.sync_mode) (str "invalid sync mode")
        (str "use one of: immediate, periodic, disabled")
    else if bytes_eq cfg.sync_mode (str "periodic") && cfg.sync_interval_ms == 0
    then config (str "tieredcache.l1.sync_interval_ms") (number cfg.sync_interval_ms)
        (str "must be greater than 0 when sync_mode is periodic") (str "use default 1000")
    else if not (one_of valid_compressions cfg.compression)
    then config (str "tieredcache.l1.compression") (shown cfg.compression)
        (str "invalid compression") (str "use one of: zstd, snappy, none")
    else nil

-- `len(brokers) == 0`
abbrev pub has_none : List Bytes → Bool
has_none [] = true
has_none (_ ∷ _) = false

-- `validateL2Config`, on Kafka
unfoldable pub validate_kafka : KafkaSinkConfig → GoError
validate_kafka cfg =
    if not cfg.enabled
    then nil
    else if has_none cfg.brokers
    then config (str "tieredcache.l2.sinks.kafka.brokers") (shown (str "[]"))
        (str "cannot be empty when enabled") (str "provide at least one broker")
    else if is_empty cfg.topic
    then config (str "tieredcache.l2.sinks.kafka.topic") (shown cfg.topic)
        (str "cannot be empty when enabled") (str "provide a topic name")
    else nil

-- `validateL2Config`, on MinIO
unfoldable pub validate_minio : MinIoSinkConfig → GoError
validate_minio cfg =
    if not cfg.enabled
    then nil
    else if is_empty cfg.endpoint
    then config (str "tieredcache.l2.sinks.minio.endpoint") (shown cfg.endpoint)
        (str "cannot be empty when enabled") (str "provide an endpoint")
    else if is_empty cfg.bucket
    then config (str "tieredcache.l2.sinks.minio.bucket") (shown cfg.bucket)
        (str "cannot be empty when enabled") (str "provide a bucket name")
    else nil

-- `validateL2Config`, on Postgres
unfoldable pub validate_postgres : PostgresSinkConfig → GoError
validate_postgres cfg =
    if not cfg.enabled
    then nil
    else if is_empty cfg.host
    then config (str "tieredcache.l2.sinks.postgres.host") (shown cfg.host)
        (str "cannot be empty when enabled") (str "provide a host")
    else if int_is_zero cfg.port
    then config (str "tieredcache.l2.sinks.postgres.port") (shown (int_text cfg.port))
        (str "cannot be 0 when enabled") (str "use default 5432")
    else if is_empty cfg.database
    then config (str "tieredcache.l2.sinks.postgres.database") (shown cfg.database)
        (str "cannot be empty when enabled") (str "provide a database name")
    else if is_empty cfg.table
    then config (str "tieredcache.l2.sinks.postgres.table") (shown cfg.table)
        (str "cannot be empty when enabled") (str "provide a table name")
    else nil

-- `validateL2Config`, on tiering
unfoldable pub validate_tiering : Formats → TieringConfig → GoError
validate_tiering formats cfg =
    if float_leb cfg.l0_to_l1_threshold float_zero || float_ltb float_one cfg.l0_to_l1_threshold
    then config (str "tieredcache.l2.tiering.l0_to_l1_threshold")
        (shown (formats.float_text cfg.l0_to_l1_threshold)) (str "must be between 0 and 1")
        (str "use default 0.85")
    else if float_leb cfg.l1_to_l2_threshold float_zero
        || float_ltb float_one cfg.l1_to_l2_threshold
    then config (str "tieredcache.l2.tiering.l1_to_l2_threshold")
        (shown (formats.float_text cfg.l1_to_l2_threshold)) (str "must be between 0 and 1")
        (str "use default 0.90")
    else if cfg.tier_interval_sec == 0
    then config (str "tieredcache.l2.tiering.tier_interval_sec") (number cfg.tier_interval_sec)
        (str "must be greater than 0") (str "use default 60")
    else nil

-- An early return: the first error that is not nil.
unfoldable pub or_else : GoError → GoError → GoError
or_else nil err = err
or_else err _ = err

-- `validateL2Config`
unfoldable pub validate_l2 : Formats → L2Config → GoError
unfolding or_else validate_kafka validate_minio validate_postgres validate_tiering
validate_l2 formats cfg =
    if not cfg.enabled
    then nil
    else or_else (validate_kafka cfg.sinks.kafka) (
        or_else (validate_minio cfg.sinks.minio)
          (or_else (validate_postgres cfg.sinks.postgres) (validate_tiering formats cfg.tiering)))

-- `validateReplayConfig`
unfoldable pub validate_replay : ReplayConfig → GoError
validate_replay cfg =
    if is_empty cfg.wal_path
    then config (str "tieredcache.replay.wal_path") (shown cfg.wal_path) (str "cannot be empty")
        (str "provide a valid WAL path")
    else if int_not_pos cfg.max_replay_workers
    then config (str "tieredcache.replay.max_replay_workers")
        (shown (int_text cfg.max_replay_workers)) (str "must be greater than 0")
        (str "use default 4")
    else if int_gt cfg.max_replay_workers 32
    then config (str "tieredcache.replay.max_replay_workers")
        (shown (int_text cfg.max_replay_workers)) (str "exceeds maximum (32)")
        (str "reduce workers")
    else if int_not_pos cfg.checkpoint_interval
    then config (str "tieredcache.replay.checkpoint_interval")
        (shown (int_text cfg.checkpoint_interval)) (str "must be greater than 0")
        (str "use default 10000")
    else if cfg.enable_checkpoint && is_empty cfg.checkpoint_path
    then config (str "tieredcache.replay.checkpoint_path") (shown cfg.checkpoint_path)
        (str "cannot be empty when checkpoint is enabled") (str "provide a valid path")
    else if cfg.max_replay_time_sec == 0
    then config (str "tieredcache.replay.max_replay_time_sec") (number cfg.max_replay_time_sec)
        (str "must be greater than 0") (str "use default 300")
    else nil

-- `validateLoggingConfig`
unfoldable pub validate_logging : LoggingConfig → GoError
unfolding one_of
validate_logging cfg =
    if not (one_of valid_levels cfg.level)
    then config (str "tieredcache.logging.level") (shown cfg.level) (str "invalid log level")
        (str "use one of: debug, info, warn, error")
    else if not (one_of valid_formats cfg.format)
    then config (str "tieredcache.logging.format") (shown cfg.format) (str "invalid log format")
        (str "use one of: json, text")
    else if not (one_of valid_outputs cfg.output)
    then config (str "tieredcache.logging.output") (shown cfg.output) (str "invalid output")
        (str "use one of: stdout, file")
    else if bytes_eq cfg.output (str "file") && is_empty cfg.file_path
    then config (str "tieredcache.logging.file_path") (shown cfg.file_path)
        (str "cannot be empty when output is file") (str "provide a log file path")
    else nil

-- `append` of an error that is not nil
unfoldable pub append_error : List GoError → GoError → List GoError
append_error errors nil = errors
append_error errors err = errors ++ err ∷ []

-- The errors that `Validate` collects.
unfoldable pub validation_errors : Formats → Config → List GoError
unfolding append_error validate_l0 validate_l1 validate_l2 validate_replay validate_logging
validation_errors formats cfg =
    append_error
      (append_error
        (append_error
          (append_error (append_error [] (validate_l0 cfg.tieredcache.l0))
            (validate_l1 formats cfg.tieredcache.l1))
          (validate_l2 formats cfg.tieredcache.l2))
        (validate_replay cfg.tieredcache.replay))
      (validate_logging cfg.tieredcache.logging)

-- `%v` of a list of errors
errors_rest : List GoError → Bytes
errors_rest [] = str "]"
errors_rest (e ∷ es) = str " " ++ (error_text e ++ errors_rest es)

unfoldable pub errors_text : List GoError → Bytes
unfolding errors_rest
errors_text [] = str "[]"
errors_text (e ∷ es) = str "[" ++ (error_text e ++ errors_rest es)

unfoldable pub invalid : Formats → Config → List GoError → GoError
unfolding errors_text
invalid formats cfg [] = nil
invalid formats cfg errors =
    config (str "config") (shown (formats.config_text cfg))
      (str "validation failed: " ++ errors_text errors) []

-- `Validate`
unfoldable pub validate : Formats → Option Config → GoError
unfolding validation_errors invalid
validate formats none =
    config (str "config") no_value (str "configuration cannot be nil")
      (str "provide a valid configuration")
validate formats (some cfg) = invalid formats cfg (validation_errors formats cfg)
