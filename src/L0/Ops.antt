-- ===== src/L0/Ops.antt =====
-- pkg/l0/l0_cache.go: the operations of the cache. Each one runs under the lock of its shard, so
-- it is one step; the current time is an argument.
pub mod Room
pub mod Place
pub mod Written
pub mod Writes
pub mod Reads
pub mod Fresh
pub mod Total
pub mod Together
use tieredcache.Base.{
  ℕ, zero, suc, ◌/◌, ◌%◌, Bool, true, false, List, [], ◌∷◌, ◌++◌, Option, none, some, Bytes, str,
  ltb, leb, ◌==◌, if◌then◌else◌, is_empty, lookup, insert, remove, get_elem?, set, length, ◌&&◌,
  add64, sub64, fnv32a, Run, done, panic, no_fuel, ◌>>=◌, Result, ok, fail, ℤ, decimal, not,
}
use tieredcache.Common.Errors.{
  GoError, nil, code, config, init, closed, not_found, shown, blob, number, Tier, l0,
}
use tieredcache.Common.Entry.{CacheEntry, new_cache_entry, is_expired}
use tieredcache.L0.State.{Shard, Cache}
use tieredcache.L0.Clock.{evict_one, add_to_clock, clear_slot}

-- `NewInitError("l0", operation, ErrCodeClosed, false)`
abbrev pub closed_error : Bytes → GoError
closed_error operation = init (str "l0") operation (code closed) false

abbrev pub empty_key_error : GoError
empty_key_error = config (str "key") (shown []) (str "key cannot be empty") []

abbrev pub empty_value_error : Bytes → GoError
empty_value_error value = config (str "value") (blob value) (str "value cannot be empty") []

abbrev pub long_key_error : ℕ → Bytes → GoError
long_key_error limit key =
    config (str "key") (shown key)
      (str "key exceeds max payload size (" ++ (decimal limit ++ str " bytes)")) []

abbrev pub long_value_error : ℕ → Bytes → GoError
long_value_error limit value =
    config (str "value") (number (length value))
      (str "value exceeds max payload size (" ++ (decimal limit ++ str " bytes)")) []

-- The index of `getShard`
unfoldable pub shard_index : Cache → Bytes → ℕ
unfolding fnv32a
shard_index c key = fnv32a key % c.shard_count

-- `getShard`: a panic on no shards (division by zero) and on an index out of range.
unfoldable pub get_shard : Cache → Bytes → Run Shard
get_shard c key =
    if c.shard_count == 0
    then panic
    else elim (get_elem? c.shards (shard_index c key)) [ none ↦ panic | some s ↦ done s ]

-- The cache after its shard for `key` has become `s`.
unfoldable pub put_shard : Cache → Bytes → Shard → Cache
put_shard c key s = record c { shards = set c.shards (shard_index c key) s }

-- `getShardMemoryLimit`
unfoldable pub shard_memory_limit : Cache → ℕ
shard_memory_limit c = c.max_memory / c.shard_count

abbrev pub missed : Cache → Bytes → Shard → Cache
missed c key s = record (put_shard c key (record s { misses = add64 s.misses 1 })) {
  misses = add64 c.misses 1;
}

abbrev pub touched : CacheEntry → ℕ → CacheEntry
touched e now = record e { accessed_at = now; access_count = add64 e.access_count 1 }

-- The end of `Get`, on what the map holds for the key.
unfoldable pub get_found :
    Cache → Bytes → ℕ → Shard → Option CacheEntry → Run (Cache × Result GoError Bytes)
get_found c key now s none = done (missed c key s, fail (code not_found))
get_found c key now s (some e) =
    if is_expired e now
    then done (missed c key s, fail (code not_found))
    else done (
      record (put_shard c key
          (record s { entries = insert key (touched e now) s.entries; hits = add64 s.hits 1 })) {
            hits = add64 c.hits 1;
          },
      ok e.value,
    )

-- `Get`
unfoldable pub get : Cache → Bytes → ℕ → Run (Cache × Result GoError Bytes)
get c key now =
    if c.closed
    then done (c, fail (closed_error (str "get")))
    else if is_empty key
    then done (c, fail empty_key_error)
    else if ltb c.max_payload (length key)
    then done (c, fail (long_key_error c.max_payload key))
    else do s ← get_shard c key; get_found c key now s (lookup key s.entries)

-- The eviction loop of `Set`. Every round that goes on has deleted an entry, so one more round
-- than there are entries is enough fuel.
unfoldable pub make_room : ℕ → ℕ → ℕ → Shard → Run Shard
make_room zero limit weight s = no_fuel
make_room (suc fuel) limit weight s =
    if ltb limit (add64 s.used_memory weight) && ltb 0 (length s.entries)
    then (do
      (s', evicted) ← evict_one s
      elim evicted [ true ↦ make_room fuel limit weight s' | false ↦ done s' ])
    else done s

-- The old entry leaves the accounts, and the new one enters map and accounts.
unfoldable pub store : Shard → Bytes → CacheEntry → Shard
store s key entry =
    let old = lookup key s.entries in
    let memory : ℕ = elim old [ none ↦ s.used_memory | some o ↦ sub64 s.used_memory o.size ] in
    let weighed : ℕ = elim old [ none ↦ s.weight | some o ↦ sub64 s.weight o.weight ] in
    record s {
      entries = insert key entry s.entries;
      used_memory = add64 memory entry.size;
      weight = add64 weighed entry.weight;
    }

-- What `Set` does to the shard.
unfoldable pub set_in_shard : ℕ → Bytes → CacheEntry → Shard → Run Shard
unfolding store
set_in_shard limit key entry s = do
  s' ← make_room (suc (length s.entries)) limit entry.weight s
  add_to_clock key entry.weight (store s' key entry)

-- `Set`
unfoldable pub set_value : Cache → Bytes → Bytes → ℤ → ℕ → Run (Cache × GoError)
set_value c key value ttl now =
    if c.closed
    then done (c, closed_error (str "set"))
    else if is_empty key
    then done (c, empty_key_error)
    else if is_empty value
    then done (c, empty_value_error value)
    else if ltb c.max_payload (length value)
    then done (c, long_value_error c.max_payload value)
    else do
      s ← get_shard c key
      s' ← set_in_shard (shard_memory_limit c) key (new_cache_entry key value ttl now) s
      done (record (put_shard c key s') { sets = add64 c.sets 1 }, nil)

-- The shard without an entry that it holds.
abbrev pub dropped : Bytes → CacheEntry → Shard → Shard
dropped key e s = record s {
  entries = remove key s.entries;
  used_memory = sub64 s.used_memory e.size;
  weight = sub64 s.weight e.weight;
}

-- The end of `Delete`, on what the map holds for the key. The key's slot in the ring stays.
unfoldable pub delete_found : Cache → Bytes → Shard → Option CacheEntry → Run (Cache × GoError)
delete_found c key s none = done (c, code not_found)
delete_found c key s (some e) =
    done (record (put_shard c key (dropped key e s)) { deletes = add64 c.deletes 1 }, nil)

-- `Delete`
unfoldable pub delete : Cache → Bytes → Run (Cache × GoError)
delete c key =
    if c.closed
    then done (c, closed_error (str "delete"))
    else if is_empty key
    then done (c, empty_key_error)
    else do s ← get_shard c key; delete_found c key s (lookup key s.entries)

-- `err == ErrCodeNotFound`
abbrev pub is_not_found : GoError → Bool
is_not_found (code not_found) = true
is_not_found _ = false

-- The result of `GetOrSet` after its `Set`.
abbrev pub set_result : Bytes → GoError → Result GoError (Bytes × Bool)
set_result value nil = ok (value, true)
set_result value err = fail err

-- The rest of `GetOrSet` after its `Get`.
unfoldable pub got_or_set :
    Cache
    → Bytes
    → Bytes
    → ℤ
    → ℕ
    → Result GoError Bytes
    → Run (Cache × Result GoError (Bytes × Bool))
got_or_set c key value ttl now (ok v) = done (c, ok (v, false))
got_or_set c key value ttl now (fail err) =
    if is_not_found err
    then (do (c', err') ← set_value c key value ttl now; done (c', set_result value err'))
    else done (c, fail err)

-- `GetOrSet`: the value, and whether it was stored by this call.
unfoldable pub get_or_set :
    Cache → Bytes → Bytes → ℤ → ℕ → Run (Cache × Result GoError (Bytes × Bool))
unfolding got_or_set
get_or_set c key value ttl now = do (c', got) ← get c key now; got_or_set c' key value ttl now got

-- The end of `Demote`, on what the map holds for the key.
unfoldable pub demote_found : Cache → Bytes → Shard → Option CacheEntry → Run (Cache × GoError)
demote_found c key s none = done (c, code not_found)
demote_found c key s (some e) = do
  s' ← clear_slot s.freq_cap 0 key (dropped key e s)
  done (put_shard c key s', nil)

-- `Demote`
unfoldable pub demote : Cache → Bytes → Run (Cache × GoError)
demote c key =
    if c.closed
    then done (c, closed_error (str "demote"))
    else do s ← get_shard c key; demote_found c key s (lookup key s.entries)
