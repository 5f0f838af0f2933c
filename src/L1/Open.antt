-- ===== src/L1/Open.antt =====
-- pkg/l1/l1_badger.go: `New`. What `MkdirAll` and `badger.Open` answer, the text of an error or the
-- opened database, and the conversion of the capacity, which is in floating point, are parameters.
use tieredcache.Base.{
  ℕ, zero, suc, ◌+◌, ◌*◌, Bool, false, List, [], ◌∷◌, ◌++◌, Option, none, some, Bytes, str,
  bytes_eq, is_empty, decimal, ◌==◌, if◌then◌else◌, ℤ, int_not_pos, Float, float_leb, float_zero,
  Result, ok, fail,
}
use tieredcache.Common.Errors.{GoError, text, wrap}
use tieredcache.Config.{L1Config}
use tieredcache.L1.Badger.{Badger}
use tieredcache.L1.State.{L1Cache}

abbrev pub default_l1_shard_count : ℕ
default_l1_shard_count = 32

pub data Compression : Type 0 where
  zstd snappy uncompressed : Compression

-- The options of Badger that `New` sets.
pub record Options : Type 0 where
  pub folder : Bytes
  pub value_folder : Bytes
  pub sync_writes : Bool
  pub in_memory : Bool
  pub compression : Compression
  pub mem_table_size : Option ℤ
  pub num_goroutines : Option ℤ
  pub block_cache_size : ℕ

-- `filepath.Join` of a clean path and a name.
abbrev pub join : Bytes → Bytes → Bytes
join path name = path ++ (str "/" ++ name)

abbrev pub shard_name : ℕ → Bytes
shard_name i = str "shard_" ++ decimal i

abbrev pub compression_of : Bytes → Compression
compression_of s =
    if bytes_eq s (str "zstd")
    then zstd
    else if bytes_eq s (str "snappy")
    then snappy
    else uncompressed

abbrev pub if_positive : ℤ → Option ℤ
if_positive n = if int_not_pos n then none else some n

-- The options for a shard, in a sync mode.
unfoldable pub options_of : L1Config → Bytes → ℕ → Options
options_of cfg sync_mode i =
    let folder = join cfg.ssd_path (shard_name i) in
    record {
      folder = folder;
      value_folder =
          if is_empty cfg.value_log_path then folder else join cfg.value_log_path (shard_name i);
      sync_writes = bytes_eq sync_mode (str "immediate");
      in_memory = bytes_eq sync_mode (str "disabled");
      compression = compression_of cfg.compression;
      mem_table_size = if_positive cfg.max_tables_size;
      num_goroutines = if_positive cfg.num_goroutines;
      block_cache_size =
          (if cfg.block_cache_size_mb == 0 then 2048 else cfg.block_cache_size_mb) * 1024 * 1024;
    }

-- The answers of the system.
pub record System (badger : Badger) : Type 0 where
  pub make_folder : Bytes → Option Bytes
  pub open_db : Options → Result Bytes badger.Db
  pub capacity_bytes : Float → ℕ

module _ {badger : Badger} (system : System badger) (cfg : L1Config) where
  unfoldable pub made : Bytes → Bytes → Result GoError badger.Db → Result GoError badger.Db
  made path message rest = elim (system.make_folder path) [
    | none ↦ rest
    | some err ↦ fail (wrap message (text err))
  ]

  abbrev pub opened : ℕ → Result Bytes badger.Db → Result GoError badger.Db
  opened i (ok db) = ok db
  opened i (fail err) =
      fail (wrap (str "failed to open badger db for shard " ++ (decimal i ++ str ": ")) (text err))

  -- One shard
  unfoldable pub open_shard : Bytes → ℕ → Result GoError badger.Db
  open_shard sync_mode i =
      made (join cfg.ssd_path (shard_name i)) (str "failed to create shard directory: ")
        (opened i (system.open_db (options_of cfg sync_mode i)))

  abbrev pub add_shard :
      badger.Db → Result GoError (List badger.Db) → Result GoError (List badger.Db)
  add_shard db (ok dbs) = ok (db ∷ dbs)
  add_shard db (fail err) = fail err

  abbrev pub and_shards :
      Result GoError badger.Db → Result GoError (List badger.Db) → Result GoError (List badger.Db)
  and_shards (ok db) rest = add_shard db rest
  and_shards (fail err) rest = fail err

  -- The loop over the shards from `i` on, `n` of them. The shards that were opened before an error are
  -- closed again.
  unfoldable pub open_shards : Bytes → ℕ → ℕ → Result GoError (List badger.Db)
  open_shards sync_mode i zero = ok []
  open_shards sync_mode i (suc n) =
      and_shards (open_shard sync_mode i) (open_shards sync_mode (i + 1) n)

  abbrev pub sync_mode_of : Bytes → Bytes
  sync_mode_of mode = if is_empty mode then str "periodic" else mode

  abbrev pub shard_count_of : ℕ → ℕ
  shard_count_of n = if n == 0 then default_l1_shard_count else n

  abbrev pub built : List badger.Db → L1Cache badger
  built dbs = record {
    shards = dbs;
    shard_count = shard_count_of cfg.shard_count;
    max_capacity = system.capacity_bytes cfg.max_capacity_gb;
    sync_mode = sync_mode_of cfg.sync_mode;
    wal_enabled = cfg.wal_enabled;
    closed = false;
    reads = 0;
    writes = 0;
    deletes = 0;
    hits = 0;
    misses = 0;
  }

  abbrev pub with_shards : Result GoError (List badger.Db) → Result GoError (L1Cache badger)
  with_shards (ok dbs) = ok (built dbs)
  with_shards (fail err) = fail err

  -- The folders, and then the shards.
  abbrev pub after_folder :
      Option Bytes → Bytes → Result GoError (L1Cache badger) → Result GoError (L1Cache badger)
  after_folder none message rest = rest
  after_folder (some err) message rest = fail (wrap message (text err))

  -- `New` of a configuration that is not nil.
  unfoldable pub l1_new : Result GoError (L1Cache badger)
  l1_new =
      let mode = sync_mode_of cfg.sync_mode in
      let shards = with_shards (open_shards mode 0 (shard_count_of cfg.shard_count)) in
      if is_empty cfg.ssd_path
      then fail (text (str "ssd_path cannot be empty"))
      else if float_leb cfg.max_capacity_gb float_zero
      then fail (text (str "max_capacity_gb must be greater than 0"))
      else after_folder (system.make_folder cfg.ssd_path) (str "failed to create ssd_path: ") (
          if is_empty cfg.value_log_path
          then shards
          else after_folder (system.make_folder cfg.value_log_path)
              (str "failed to create value_log_path: ") shards)
