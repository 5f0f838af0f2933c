-- ===== src/L1/State.antt =====
-- pkg/l1/l1_badger.go: the cache and its operations. Each runs under the lock of its shard; the
-- time is in nanoseconds.
use tieredcache.Base.{
  ℕ, ◌+◌, ◌/◌, ◌%◌, ◌^◌, Bool, true, false, List, [], ◌∷◌, none, some, Bytes, str, leb, ◌==◌,
  is_empty, if◌then◌else◌, add64, get_elem?, set, fnv32a, Run, done, panic, ◌>>=◌, Result, ok, fail,
  ℤ, pos, negsuc, bytes_eq,
}
use tieredcache.Common.Errors.{GoError, text}
use tieredcache.L1.Badger.{Badger, Read, found, absent, failed}

-- `L1Cache`, with the counters of its `stats`.
pub record L1Cache (badger : Badger) : Type 0 where
  pub shards : List badger.Db
  pub shard_count : ℕ
  pub max_capacity : ℕ
  pub sync_mode : Bytes
  pub wal_enabled : Bool
  pub closed : Bool
  pub reads : ℕ
  pub writes : ℕ
  pub deletes : ℕ
  pub hits : ℕ
  pub misses : ℕ

abbrev pub l1_closed : GoError
l1_closed = text (str "cache is closed")

abbrev pub l1_empty_key : GoError
l1_empty_key = text (str "key cannot be empty")

abbrev pub l1_empty_value : GoError
l1_empty_value = text (str "value cannot be empty")

abbrev pub l1_at_capacity : GoError
l1_at_capacity = text (str "cache is at capacity")

abbrev pub l1_not_found : GoError
l1_not_found = text (str "key not found")

-- The sum of the sizes
abbrev pub sizes : (badger : Badger) → List badger.Db → ℕ
sizes badger [] = 0
sizes badger (db ∷ dbs) = add64 (badger.lsm_size db) (sizes badger dbs)

-- `ExpiresAt`: seconds of Unix time, 0 for no expiry.
unfoldable pub expires_at : ℤ → ℕ → ℕ
expires_at (negsuc _) now = 0
expires_at (pos t) now = if t == 0 then 0 else (now + t) / 10 ^ 9

-- The answer of `Exists`
abbrev pub read_exists : Read → Result GoError Bool
read_exists (found v) = ok true
read_exists absent = ok false
read_exists (failed e) = fail e

-- The answer of `GetTier`
abbrev pub tier_result : Result GoError Bool → Result GoError ℕ
tier_result (fail e) = fail e
tier_result (ok false) = fail l1_not_found
tier_result (ok true) = ok 1

module _ {badger : Badger} where
  -- The index of `getShard`
  unfoldable pub l1_shard_index : L1Cache badger → Bytes → ℕ
  l1_shard_index c key = fnv32a key % c.shard_count

  -- `getShard`: a panic on no shards and on an index out of range.
  unfoldable pub l1_get_shard : L1Cache badger → Bytes → Run badger.Db
  l1_get_shard c key =
      if c.shard_count == 0
      then panic
      else elim (get_elem? c.shards (l1_shard_index c key)) [ none ↦ panic | some s ↦ done s ]

  unfoldable pub l1_put_shard : L1Cache badger → Bytes → badger.Db → L1Cache badger
  l1_put_shard c key db = record c { shards = set c.shards (l1_shard_index c key) db }

  -- `DiskUsage`
  unfoldable pub disk_usage : L1Cache badger → ℕ
  disk_usage c = sizes badger c.shards

  -- `Weight`
  unfoldable pub l1_weight : L1Cache badger → ℕ
  l1_weight c = disk_usage c / 4096

  -- The end of `Get`, on what the database answers.
  unfoldable pub l1_got : L1Cache badger → Read → L1Cache badger × Result GoError Bytes
  l1_got c (found v) = (record c { hits = add64 c.hits 1; reads = add64 c.reads 1 }, ok v)
  l1_got c absent =
      (record c { misses = add64 c.misses 1; reads = add64 c.reads 1 }, fail l1_not_found)
  l1_got c (failed e) = (record c { reads = add64 c.reads 1 }, fail e)

  -- `Get`
  unfoldable pub l1_get : L1Cache badger → Bytes → ℕ → Run (L1Cache badger × Result GoError Bytes)
  l1_get c key now =
      if c.closed
      then done (c, fail l1_closed)
      else if is_empty key
      then done (c, fail l1_empty_key)
      else do db ← l1_get_shard c key; done (l1_got c (badger.read (now / 10 ^ 9) key db))

  -- `Set`
  unfoldable pub l1_set : L1Cache badger → Bytes → Bytes → ℤ → ℕ → Run (L1Cache badger × GoError)
  l1_set c key value ttl now =
      if c.closed
      then done (c, l1_closed)
      else if is_empty key
      then done (c, l1_empty_key)
      else if is_empty value
      then done (c, l1_empty_value)
      else if leb c.max_capacity (disk_usage c)
      then done (c, l1_at_capacity)
      else do
        db ← l1_get_shard c key
        let (err, db') = badger.set_entry key value (expires_at ttl now) db
        done (record (l1_put_shard c key db') { writes = add64 c.writes 1 }, err)

  -- `Delete`
  unfoldable pub l1_delete : L1Cache badger → Bytes → Run (L1Cache badger × GoError)
  l1_delete c key =
      if c.closed then done (c, l1_closed) else if is_empty key then done (c, l1_empty_key) else do
        db ← l1_get_shard c key
        let (err, db') = badger.delete_entry key db
        done (record (l1_put_shard c key db') { deletes = add64 c.deletes 1 }, err)

  -- `Exists`
  unfoldable pub l1_exists : L1Cache badger → Bytes → ℕ → Run (Result GoError Bool)
  l1_exists c key now =
      if c.closed
      then done (fail l1_closed)
      else do db ← l1_get_shard c key; done (read_exists (badger.read (now / 10 ^ 9) key db))

  -- `GetTier`
  unfoldable pub l1_get_tier : L1Cache badger → Bytes → ℕ → Run (Result GoError ℕ)
  l1_get_tier c key now = do r ← l1_exists c key now; done (tier_result r)

  -- `ShouldUseWAL`
  unfoldable pub should_use_wal : L1Cache badger → Bool
  should_use_wal c = if bytes_eq c.sync_mode (str "immediate") then false else c.wal_enabled

  -- `Close`, when every database can be closed.
  unfoldable pub l1_close : L1Cache badger → L1Cache badger
  l1_close c = if c.closed then c else record c { closed = true }
