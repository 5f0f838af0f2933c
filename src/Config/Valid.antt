-- ===== src/Config/Valid.antt =====
-- pkg/config/config.go: which configurations `Validate` accepts.
use tieredcache.Base.{
  ℕ, ◌*◌, ◌<◌, ◌≤◌, ◌≡◌, ◌≢◌, refl, ◌↔◌, ◌⊎◌, true, false, List, [], ◌∷◌, ◌++◌, some, Bytes, str,
  bytes_eq_iff, ℤ, pos, negsuc, Float, is_nan, float_ltb, float_leb, float_zero, float_one, arith,
}
use tieredcache.Common.Errors.{GoError, nil}
use tieredcache.Config.{
  Config, L0Config, L1Config, L2Config, KafkaSinkConfig, MinIoSinkConfig, PostgresSinkConfig,
  TieringConfig, ReplayConfig, LoggingConfig,
}
use tieredcache.Config.Validate.{
  Formats, validate, validate_l0, validate_l1, validate_l2, validate_kafka, validate_minio,
  validate_postgres, validate_tiering, validate_replay, validate_logging, one_of, max_capacity,
  valid_policies, valid_sync_modes, valid_compressions, valid_levels, valid_formats, valid_outputs,
  validation_errors, append_error, invalid, or_else,
}

-- The text is one of the names.
unfoldable pub OneOf : List Bytes → Bytes → Type 0
OneOf [] s = ⊥
OneOf (name ∷ names) s = (s ≡ name) ⊎ OneOf names s

pub one_of_iff : (names : List Bytes) (s : Bytes) → (one_of names s ≡ true) ↔ OneOf names s
unfolding one_of OneOf
one_of_iff [] s = (λ e. cc, λ h. absurd h)
one_of_iff (name ∷ names) s = ground (arith, bytes_eq_iff s name, one_of_iff names s)

-- A float above 0 and not above a limit, or NaN.
unfoldable pub IsWithin : Float → Float → Type 0
IsWithin top x = (is_nan x ≡ true) ⊎ ((float_ltb float_zero x ≡ true) × (float_ltb top x ≡ false))

abbrev pub IsPositive : ℤ → Type 0
IsPositive (pos n) = 0 < n
IsPositive (negsuc n) = ⊥

abbrev pub IsAtMost : ℕ → ℤ → Type 0
IsAtMost top (pos n) = n ≤ top
IsAtMost top (negsuc n) = Unit

pub record IsValidL0 (cfg : L0Config) : Type 0 where
  pub memory : (0 < cfg.max_memory_mb) × (cfg.max_memory_mb ≤ 131072)
  pub payload : (0 < cfg.max_payload_bytes) × (cfg.max_payload_bytes ≤ 1024 * 1024)
  pub unit : 0 < cfg.weighted_unit_bytes
  pub shards : (0 < cfg.shard_count) × (cfg.shard_count ≤ 256)
  pub policy : OneOf valid_policies cfg.eviction_policy
  pub interval : 0 < cfg.snapshot_interval_sec

pub record IsValidL1 (cfg : L1Config) : Type 0 where
  pub capacity : IsWithin max_capacity cfg.max_capacity_gb
  pub shards : (0 < cfg.shard_count) × (cfg.shard_count ≤ 128)
  pub path : cfg.ssd_path ≢ []
  pub mode : OneOf valid_sync_modes cfg.sync_mode
  pub interval : (cfg.sync_mode ≢ str "periodic") ⊎ (0 < cfg.sync_interval_ms)
  pub compressed : OneOf valid_compressions cfg.compression

l0_iff : (cfg : L0Config) → (validate_l0 cfg ≡ nil) ↔ IsValidL0 cfg
unfolding validate_l0
l0_iff cfg = ground (arith, one_of_iff valid_policies cfg.eviction_policy)

float_iff :
    (top x : Float)
    → is_nan top ≡ false
    → ((float_leb x float_zero ≡ false) × (float_ltb top x ≡ false)) ↔ IsWithin top x
unfolding float_leb IsWithin
float_iff top x h = ground arith

l1_iff : (formats : Formats) (cfg : L1Config) → (validate_l1 formats cfg ≡ nil) ↔ IsValidL1 cfg
unfolding validate_l1
l1_iff formats cfg = ground (
  arith,
  float_iff max_capacity cfg.max_capacity_gb refl,
  one_of_iff valid_sync_modes cfg.sync_mode,
  one_of_iff valid_compressions cfg.compression,
  bytes_eq_iff cfg.sync_mode (str "periodic"),
)

-- What an enabled sink needs.
pub record IsValidKafka (cfg : KafkaSinkConfig) : Type 0 where
  pub brokers : cfg.brokers ≢ []
  pub topic : cfg.topic ≢ []

pub record IsValidMinIo (cfg : MinIoSinkConfig) : Type 0 where
  pub endpoint : cfg.endpoint ≢ []
  pub bucket : cfg.bucket ≢ []

pub record IsValidPostgres (cfg : PostgresSinkConfig) : Type 0 where
  pub host : cfg.host ≢ []
  pub port : cfg.port ≢ pos 0
  pub database : cfg.database ≢ []
  pub table : cfg.table ≢ []

pub record IsValidTiering (cfg : TieringConfig) : Type 0 where
  pub first : IsWithin float_one cfg.l0_to_l1_threshold
  pub second : IsWithin float_one cfg.l1_to_l2_threshold
  pub interval : 0 < cfg.tier_interval_sec

-- L2 is disabled, or each enabled sink has what it needs and the tiering is in its ranges.
pub record IsValidL2 (cfg : L2Config) : Type 0 where
  pub kafka : cfg.enabled ≡ true → cfg.sinks.kafka.enabled ≡ true → IsValidKafka cfg.sinks.kafka
  pub minio : cfg.enabled ≡ true → cfg.sinks.minio.enabled ≡ true → IsValidMinIo cfg.sinks.minio
  pub postgres :
      cfg.enabled ≡ true → cfg.sinks.postgres.enabled ≡ true → IsValidPostgres cfg.sinks.postgres
  pub tiering : cfg.enabled ≡ true → IsValidTiering cfg.tiering

pub record IsValidReplay (cfg : ReplayConfig) : Type 0 where
  pub path : cfg.wal_path ≢ []
  pub workers : IsPositive cfg.max_replay_workers × IsAtMost 32 cfg.max_replay_workers
  pub interval : IsPositive cfg.checkpoint_interval
  pub checkpoints : (cfg.enable_checkpoint ≡ false) ⊎ (cfg.checkpoint_path ≢ [])
  pub time : 0 < cfg.max_replay_time_sec

pub record IsValidLogging (cfg : LoggingConfig) : Type 0 where
  pub level : OneOf valid_levels cfg.level
  pub format : OneOf valid_formats cfg.format
  pub output : OneOf valid_outputs cfg.output
  pub path : (cfg.output ≢ str "file") ⊎ (cfg.file_path ≢ [])

kafka_iff :
    (cfg : KafkaSinkConfig) → (validate_kafka cfg ≡ nil) ↔ (cfg.enabled ≡ true → IsValidKafka cfg)
unfolding validate_kafka
kafka_iff cfg = ground arith

minio_iff :
    (cfg : MinIoSinkConfig) → (validate_minio cfg ≡ nil) ↔ (cfg.enabled ≡ true → IsValidMinIo cfg)
unfolding validate_minio
minio_iff cfg = ground arith

postgres_iff :
    (cfg : PostgresSinkConfig)
    → (validate_postgres cfg ≡ nil) ↔ (cfg.enabled ≡ true → IsValidPostgres cfg)
unfolding validate_postgres
postgres_iff cfg = ground arith

tiering_iff :
    (formats : Formats) (cfg : TieringConfig)
    → (validate_tiering formats cfg ≡ nil) ↔ IsValidTiering cfg
unfolding validate_tiering
tiering_iff formats cfg = ground (
  arith,
  float_iff float_one cfg.l0_to_l1_threshold refl,
  float_iff float_one cfg.l1_to_l2_threshold refl,
)

or_else_iff : (a b : GoError) → (or_else a b ≡ nil) ↔ ((a ≡ nil) × (b ≡ nil))
unfolding or_else
or_else_iff a b = ground arith

l2_iff : (formats : Formats) (cfg : L2Config) → (validate_l2 formats cfg ≡ nil) ↔ IsValidL2 cfg
unfolding validate_l2
l2_iff formats cfg =
    let tiering = validate_tiering formats cfg.tiering in
    let postgres = validate_postgres cfg.sinks.postgres in
    let minio = validate_minio cfg.sinks.minio in
    ground (
      arith,
      or_else_iff (validate_kafka cfg.sinks.kafka) (or_else minio (or_else postgres tiering)),
      or_else_iff minio (or_else postgres tiering),
      or_else_iff postgres tiering,
      kafka_iff cfg.sinks.kafka,
      minio_iff cfg.sinks.minio,
      postgres_iff cfg.sinks.postgres,
      tiering_iff formats cfg.tiering,
    )

replay_iff : (cfg : ReplayConfig) → (validate_replay cfg ≡ nil) ↔ IsValidReplay cfg
unfolding validate_replay
replay_iff cfg = ground arith

logging_iff : (cfg : LoggingConfig) → (validate_logging cfg ≡ nil) ↔ IsValidLogging cfg
unfolding validate_logging
logging_iff cfg = ground (
  arith,
  one_of_iff valid_levels cfg.level,
  one_of_iff valid_formats cfg.format,
  one_of_iff valid_outputs cfg.output,
  bytes_eq_iff cfg.output (str "file"),
)

pub record IsValid (cfg : Config) : Type 0 where
  pub l0 : IsValidL0 cfg.tieredcache.l0
  pub l1 : IsValidL1 cfg.tieredcache.l1
  pub l2 : IsValidL2 cfg.tieredcache.l2
  pub replay : IsValidReplay cfg.tieredcache.replay
  pub logging : IsValidLogging cfg.tieredcache.logging

append-ne : (es : List GoError) (e : GoError) → (es ++ e ∷ []) ≢ []
append-ne [] e h = cc
append-ne (x ∷ es) e h = cc

append_error_iff :
    (es : List GoError) (e : GoError) → (append_error es e ≡ []) ↔ ((es ≡ []) × (e ≡ nil))
unfolding append_error
append_error_iff es e = ground (arith, append-ne es e)

invalid_iff :
    (formats : Formats) (cfg : Config) (es : List GoError)
    → (invalid formats cfg es ≡ nil) ↔ (es ≡ [])
unfolding invalid
invalid_iff formats cfg es = ground arith

errors_iff :
    (a b c d e : GoError)
    → (append_error (append_error (append_error (append_error (append_error [] a) b) c) d) e ≡ [])
      ↔ ((a ≡ nil) × (b ≡ nil) × (c ≡ nil) × (d ≡ nil) × (e ≡ nil))
errors_iff a b c d e =
    let es1 = append_error [] a in
    let es2 = append_error es1 b in
    let es3 = append_error es2 c in
    let es4 = append_error es3 d in
    ground (
      arith,
      append_error_iff [] a,
      append_error_iff es1 b,
      append_error_iff es2 c,
      append_error_iff es3 d,
      append_error_iff es4 e,
    )

-- `Validate` returns nil exactly for the configurations whose every part is in its ranges, where a
-- capacity or a threshold that is NaN counts as in range.
pub validate_iff :
    (formats : Formats) (cfg : Config) → (validate formats (some cfg) ≡ nil) ↔ IsValid cfg
unfolding validate validation_errors
validate_iff formats cfg = ground (
  arith,
  invalid_iff formats cfg (validation_errors formats cfg),
  errors_iff (validate_l0 cfg.tieredcache.l0) (validate_l1 formats cfg.tieredcache.l1)
      (validate_l2 formats cfg.tieredcache.l2) (validate_replay cfg.tieredcache.replay)
      (validate_logging cfg.tieredcache.logging),
  l0_iff cfg.tieredcache.l0,
  l1_iff formats cfg.tieredcache.l1,
  l2_iff formats cfg.tieredcache.l2,
  replay_iff cfg.tieredcache.replay,
  logging_iff cfg.tieredcache.logging,
)
