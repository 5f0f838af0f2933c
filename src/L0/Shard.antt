-- ===== src/L0/Shard.antt =====
-- pkg/l0/l0_cache.go: what holds of a shard between two operations, and of a cache.
use tieredcache.Base.{
  ℕ, ◌+◌, ◌-◌, ◌/◌, ◌%◌, ◌^◌, ◌<◌, ◌≡◌, false, List, [], ◌∷◌, Bytes, length, All, IsMap, total,
  is_empty, if◌then◌else◌,
}
use tieredcache.Common.Entry.{CacheEntry, weighted_unit_bytes}
use tieredcache.L0.State.{ClockEntry, Shard, Cache}

-- The number of slots that hold a key.
abbrev pub occupied : List ClockEntry → ℕ
occupied [] = 0
occupied (ce ∷ ring) = (if is_empty ce.key then 0 else 1) + occupied ring

-- What holds of every entry of the map: its key is not empty and is its own, and its size and
-- weight are those of its value.
pub record IsStored (x : Bytes × CacheEntry) : Type 0 where
  pub keyed : is_empty x.0 ≡ false
  pub own_key : x.1.key ≡ x.0
  pub sized : x.1.size ≡ length x.1.value
  pub weighed : x.1.weight ≡ (length x.1.value + weighted_unit_bytes - 1) / weighted_unit_bytes

abbrev pub total_size : List (Bytes × CacheEntry) → ℕ
total_size = total (λ (e : CacheEntry). e.size)

abbrev pub total_weight : List (Bytes × CacheEntry) → ℕ
total_weight = total (λ (e : CacheEntry). e.weight)

-- The ring: its capacity, the hand inside it, and the count of its occupied slots.
pub record IsRing (s : Shard) : Type 0 where
  pub whole : length s.frequency ≡ s.freq_cap
  pub hand : s.clock_hand < s.freq_cap
  pub counted : s.freq_size ≡ occupied s.frequency

-- The accounts: memory and weight are the sums over the map, in 64 bits.
pub record IsAccounted (s : Shard) : Type 0 where
  pub distinct : IsMap s.entries
  pub stored : All IsStored s.entries
  pub memory : s.used_memory ≡ total_size s.entries % 2 ^ 64
  pub weights : s.weight ≡ total_weight s.entries % 2 ^ 64

abbrev pub IsShard : Shard → Type 0
IsShard s = IsRing s × IsAccounted s

-- A cache: as many shards as it counts, at least one, each well formed.
pub record IsCache (c : Cache) : Type 0 where
  pub sharded : length c.shards ≡ c.shard_count
  pub some_shard : 0 < c.shard_count
  pub each : All IsShard c.shards

-- The shard's map and accounts are as before.
pub record Keeps (s s' : Shard) : Type 0 where
  pub entries : s'.entries ≡ s.entries
  pub memory : s'.used_memory ≡ s.used_memory
  pub weights : s'.weight ≡ s.weight
