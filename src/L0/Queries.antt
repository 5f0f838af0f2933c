-- ===== src/L0/Queries.antt =====
-- pkg/l0/l0_cache.go: the operations that read the cache without changing it.
use tieredcache.Base.{
  ℕ, Bool, false, List, [], ◌∷◌, ◌++◌, none, some, Bytes, str, leb, if◌then◌else◌, lookup, length,
  add64, Run, done, ◌>>=◌, Result, ok, fail, not,
}
use tieredcache.Common.Errors.{GoError, code, not_found, Tier, l0}
use tieredcache.Common.Entry.{CacheEntry, is_expired}
use tieredcache.L0.State.{Shard, Cache}
use tieredcache.L0.Ops.{closed_error, get_shard}

-- `Exists`
unfoldable pub exists : Cache → Bytes → ℕ → Run (Result GoError Bool)
exists c key now = if c.closed then done (fail (closed_error (str "exists"))) else do
  s ← get_shard c key
  elim (lookup key s.entries) [
    | none ↦ done (ok false)
    | some e ↦ done (ok (not (is_expired e now)))
  ]

-- `GetTier`
unfoldable pub get_tier : Cache → Bytes → Run (Result GoError Tier)
get_tier c key = if c.closed then done (fail (closed_error (str "get_tier"))) else do
  s ← get_shard c key
  elim (lookup key s.entries) [ none ↦ done (fail (code not_found)) | some _ ↦ done (ok l0) ]

-- `Promote`
unfoldable pub promote : Cache → Bytes → Run (Result GoError CacheEntry)
promote c key = if c.closed then done (fail (closed_error (str "promote"))) else do
  s ← get_shard c key
  elim (lookup key s.entries) [ none ↦ done (fail (code not_found)) | some e ↦ done (ok e) ]

-- The loops of `EvictCandidates`: the entries shard by shard until there are `count`.
unfoldable pub collect : ℕ → List (Bytes × CacheEntry) → List CacheEntry → List CacheEntry
collect count [] found = found
collect count ((_, e) ∷ m) found =
    let rest = collect count m (found ++ e ∷ []) in if leb count (length found) then found else rest

unfoldable pub collect_shards : ℕ → List Shard → List CacheEntry → List CacheEntry
unfolding collect
collect_shards count [] found = found
collect_shards count (s ∷ shards) found =
    let found' = collect count s.entries found in
    let rest = collect_shards count shards found' in
    if leb count (length found') then found' else rest

-- `EvictCandidates`
unfoldable pub evict_candidates : Cache → ℕ → Result GoError (List CacheEntry)
unfolding collect_shards
evict_candidates c count =
    if c.closed
    then fail (closed_error (str "evict_candidates"))
    else ok (collect_shards count c.shards [])

-- The sum of a counter over the shards, in 64 bits.
abbrev pub sum_shards : (Shard → ℕ) → List Shard → ℕ
sum_shards f [] = 0
sum_shards f (s ∷ shards) = add64 (f s) (sum_shards f shards)

-- `Weight`
unfoldable pub weight : Cache → ℕ
weight c = sum_shards (λ s. s.weight) c.shards

-- `MemoryUsage`
unfoldable pub memory_usage : Cache → ℕ
memory_usage c = sum_shards (λ s. s.used_memory) c.shards

-- The counters that `Stats` reports; its hit rate is a float and is left out.
pub record Stats : Type 0 where
  pub hits : ℕ
  pub misses : ℕ
  pub sets : ℕ
  pub deletes : ℕ
  pub evictions : ℕ
  pub entries : ℕ
  pub total_weight : ℕ
  pub memory_used : ℕ
  pub memory_limit : ℕ

-- `Stats`
unfoldable pub stats : Cache → Result GoError Stats
stats c =
    if c.closed
    then fail (closed_error (str "stats"))
    else ok (record {
      hits = sum_shards (λ s. s.hits) c.shards;
      misses = sum_shards (λ s. s.misses) c.shards;
      sets = c.sets;
      deletes = c.deletes;
      evictions = sum_shards (λ s. s.evicts) c.shards;
      entries = sum_shards (λ s. length s.entries) c.shards;
      total_weight = sum_shards (λ s. s.weight) c.shards;
      memory_used = sum_shards (λ s. s.used_memory) c.shards;
      memory_limit = c.max_memory;
    })

-- `Add` of pkg/l0/stats.go
unfoldable pub add_stats : Stats → Stats → Stats
add_stats s other = record s {
  hits = add64 s.hits other.hits;
  misses = add64 s.misses other.misses;
  sets = add64 s.sets other.sets;
  deletes = add64 s.deletes other.deletes;
  evictions = add64 s.evictions other.evictions;
}

-- `Reset` of pkg/l0/stats.go
unfoldable pub reset_stats : Stats → Stats
reset_stats s = record s { hits = 0; misses = 0; sets = 0; deletes = 0; evictions = 0 }
