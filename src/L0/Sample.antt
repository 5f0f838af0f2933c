-- ===== src/L0/Sample.antt =====
-- A small cache for the examples.
use tieredcache.Base.{refl, true, false, [], ◌∷◌, str, arith, pos, lookup}
use tieredcache.Common.Errors.{l0}
use tieredcache.Common.Entry.{CacheEntry}
use tieredcache.L0.State.{Shard, Cache, empty_slot}
use tieredcache.L0.Shard.{IsShard, IsCache}

abbrev pub entry_a : CacheEntry
entry_a = record {
  key = str "a";
  value = 7 ∷ 8 ∷ [];
  tier = l0;
  size = 2;
  weight = 1;
  created_at = 100;
  accessed_at = 100;
  access_count = 1;
  ttl = pos 50;
}

-- One shard with a ring of three slots, the first of which holds the key "a".
abbrev pub shard_a : Shard
shard_a = record {
  entries = (str "a", entry_a) ∷ [];
  clock_hand = 0;
  frequency = record { key = str "a"; reference = true; weight = 1 } ∷ empty_slot ∷ empty_slot ∷ [];
  freq_size = 1;
  freq_cap = 3;
  used_memory = 2;
  weight = 1;
  hits = 0;
  misses = 0;
  evicts = 0;
}

abbrev pub cache_a : Cache
cache_a = record {
  shards = shard_a ∷ [];
  shard_count = 1;
  max_memory = 4;
  max_payload = 3;
  weighted_unit = 4096;
  snapshot_path = [];
  snapshot_int = pos 0;
  enable_snapshot = false;
  hits = 0;
  misses = 0;
  sets = 1;
  deletes = 0;
  closed = false;
  snapshotting = false;
}

pub shard_a-IsShard : IsShard shard_a
unfolding lookup
shard_a-IsShard = (
  record { whole = refl; hand = omega arith; counted = refl },
  record {
    distinct = (refl, tt);
    stored = (record { keyed = refl; own_key = refl; sized = refl; weighed = refl }, tt);
    memory = refl;
    weights = refl;
  },
)

pub cache_a-IsCache : IsCache cache_a
cache_a-IsCache = record { sharded = refl; some_shard = omega arith; each = (shard_a-IsShard, tt) }
