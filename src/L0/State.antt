-- ===== src/L0/State.antt =====
-- pkg/l0/l0_cache.go: the state of the in-memory cache, and its constructor.
use tieredcache.Base.{
  ℕ, ◌*◌, ◌/◌, Bool, false, List, [], Option, none, some, Bytes, str, ltb, ◌==◌, if◌then◌else◌,
  replicate, ℤ, Result, ok, fail,
}
use tieredcache.Common.Errors.{GoError, config, no_value, number}
use tieredcache.Common.Entry.{
  CacheEntry, default_l0_shard_count, weighted_unit_bytes, min_frequency_size,
}

pub record ClockEntry : Type 0 where
  pub key : Bytes
  pub reference : Bool
  pub weight : ℕ

-- `shard`. `used_memory` and the counters are uint64; `weight` is an int, by its 64-bit pattern.
pub record Shard : Type 0 where
  pub entries : List (Bytes × CacheEntry)
  pub clock_hand : ℕ
  pub frequency : List ClockEntry
  pub freq_size : ℕ
  pub freq_cap : ℕ
  pub used_memory : ℕ
  pub weight : ℕ
  pub hits : ℕ
  pub misses : ℕ
  pub evicts : ℕ

-- `L0Cache`, with the counters of its `stats` that the code updates.
pub record Cache : Type 0 where
  pub shards : List Shard
  pub shard_count : ℕ
  pub max_memory : ℕ
  pub max_payload : ℕ
  pub weighted_unit : ℕ
  pub snapshot_path : Bytes
  pub snapshot_int : ℤ
  pub enable_snapshot : Bool
  pub hits : ℕ
  pub misses : ℕ
  pub sets : ℕ
  pub deletes : ℕ
  pub closed : Bool
  pub snapshotting : Bool

pub record Config : Type 0 where
  pub max_memory_mb : ℕ
  pub max_payload_bytes : ℕ
  pub weighted_unit : ℕ
  pub shard_count : ℕ
  pub snapshot_path : Bytes
  pub snapshot_int : ℤ
  pub enable_snapshot : Bool

abbrev pub empty_slot : ClockEntry
empty_slot = record { key = []; reference = false; weight = 0 }

unfoldable pub new_shard : ℕ → Shard
new_shard freq_size = record {
  entries = [];
  clock_hand = 0;
  frequency = replicate freq_size empty_slot;
  freq_size = 0;
  freq_cap = freq_size;
  used_memory = 0;
  weight = 0;
  hits = 0;
  misses = 0;
  evicts = 0;
}

-- The ring size of a shard.
unfoldable pub ring_size : ℕ → ℕ → ℕ → ℕ
ring_size max_memory shard_count weighted_unit =
    let freq_size = max_memory / shard_count / weighted_unit / 4 in
    if ltb freq_size min_frequency_size then min_frequency_size else freq_size

-- The cache that `New` builds once the configuration is checked.
unfoldable pub build : Config → Cache
unfolding new_shard ring_size
build cfg =
    let count = if cfg.shard_count == 0 then default_l0_shard_count else cfg.shard_count in
    let unit = if cfg.weighted_unit == 0 then weighted_unit_bytes else cfg.weighted_unit in
    let memory = cfg.max_memory_mb * 1024 * 1024 in
    record {
      shards = replicate count (new_shard (ring_size memory count unit));
      shard_count = count;
      max_memory = memory;
      max_payload = cfg.max_payload_bytes;
      weighted_unit = unit;
      snapshot_path = cfg.snapshot_path;
      snapshot_int = cfg.snapshot_int;
      enable_snapshot = cfg.enable_snapshot;
      hits = 0;
      misses = 0;
      sets = 0;
      deletes = 0;
      closed = false;
      snapshotting = false;
    }

-- `New`. The fields of the configuration are uint32, so `max_memory_mb * 1024 * 1024` fits.
unfoldable pub new : Option Config → Result GoError Cache
unfolding build
new none = fail (config (str "config") no_value (str "configuration cannot be nil") [])
new (some cfg) =
    if cfg.max_memory_mb == 0
    then fail (
        config (str "config.max_memory_mb") (number cfg.max_memory_mb)
          (str "must be greater than 0") [])
    else if cfg.max_payload_bytes == 0
    then fail (
        config (str "config.max_payload_bytes") (number cfg.max_payload_bytes)
          (str "must be greater than 0") [])
    else ok (build cfg)
