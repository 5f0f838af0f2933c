-- ===== src/L0/Limits.antt =====
-- pkg/l0/l0_cache.go: what the memory limit of a shard bounds, and what the accounts add up to.
use tieredcache.Base.{
  ℕ, suc, ◌+◌, ◌%◌, ◌^◌, ◌≤◌, ◌<◌, ◌≡◌, refl, false, List, [], ◌∷◌, none, Bytes, length, arith, ltb,
  le→ltb, done, lookup, insert, add64, Returns, Returns-map, All, is_empty,
}
use tieredcache.Common.Entry.{CacheEntry}
use tieredcache.L0.State.{Shard, Cache}
use tieredcache.L0.Shard.{IsRing, IsShard, IsCache, Keeps, total_size, total_weight}
use tieredcache.L0.Clock.{add_to_clock}
use tieredcache.L0.Clock.Ring.{add_to_clock-IsRing}
use tieredcache.L0.Ops.{make_room, store, set_in_shard}
use tieredcache.L0.Queries.{sum_shards, memory_usage, weight}

-- Where the check of `Set` finds room, nothing is evicted.
make_room_fits :
    (fuel limit w : ℕ) (s : Shard)
    → ltb limit (add64 s.used_memory w) ≡ false
    → make_room (suc fuel) limit w s ≡ done s
unfolding make_room
make_room_fits fuel limit w s h = rw h refl

-- `Set` compares the limit, in bytes, with the memory plus the new entry's weight, in units of
-- 4096 bytes. So if a new key's weight fits and its bytes do not, `Set` evicts nothing and leaves
-- the shard above its limit.
pub set_in_shard-overshoots :
    (limit : ℕ) (key : Bytes) (e : CacheEntry) (s : Shard)
    → IsShard s
    → is_empty key ≡ false
    → lookup key s.entries ≡ none
    → s.used_memory + e.weight ≤ limit
    → limit < s.used_memory + e.size
    → s.used_memory + e.size < 2 ^ 64
    → limit < 2 ^ 64
    → Returns
        (set_in_shard limit key e s)
        (λ s'. (s'.entries ≡ insert key e s.entries) × (limit < s'.used_memory))
unfolding set_in_shard store
set_in_shard-overshoots limit key e s h k new fits over small limit_small =
    let room : ltb limit (add64 s.used_memory e.weight) ≡ false = le→ltb _ _ (omega arith) in
    let u = store s key e in
    let ring : IsRing u = record { whole = h.0.whole; hand = h.0.hand; counted = h.0.counted } in
    let memory : u.used_memory ≡ s.used_memory + e.size = rw new (omega arith) in
    rw (make_room_fits (length s.entries) limit e.weight s room) (
      Returns-map (add_to_clock key e.weight u) (λ v. IsRing v × Keeps u v) _
        (add_to_clock-IsRing key e.weight u ring k)
        (λ v o. (o.1.entries, omega (arith, o.1.memory, memory))))

-- The bytes of all values in a list of shards.
abbrev pub bytes_stored : List Shard → ℕ
bytes_stored [] = 0
bytes_stored (s ∷ shards) = total_size s.entries + bytes_stored shards

abbrev pub weight_stored : List Shard → ℕ
weight_stored [] = 0
weight_stored (s ∷ shards) = total_weight s.entries + weight_stored shards

sum_shards-memory :
    (shards : List Shard)
    → All IsShard shards
    → sum_shards (λ s. s.used_memory) shards ≡ bytes_stored shards % 2 ^ 64
sum_shards-memory [] h = refl
sum_shards-memory (s ∷ shards) h = omega (arith, h.0.1.memory, sum_shards-memory shards h.1)

sum_shards-weight :
    (shards : List Shard)
    → All IsShard shards
    → sum_shards (λ s. s.weight) shards ≡ weight_stored shards % 2 ^ 64
sum_shards-weight [] h = refl
sum_shards-weight (s ∷ shards) h = omega (arith, h.0.1.weights, sum_shards-weight shards h.1)

-- On a well-formed cache `MemoryUsage` and `Weight` are the sums, in 64 bits, of the sizes and of
-- the weights of all the entries that the cache holds.
pub memory_usage-total :
    (c : Cache)
    → IsCache c
    → (memory_usage c ≡ bytes_stored c.shards % 2 ^ 64)
      × (weight c ≡ weight_stored c.shards % 2 ^ 64)
unfolding memory_usage weight
memory_usage-total c h = (sum_shards-memory c.shards h.each, sum_shards-weight c.shards h.each)
