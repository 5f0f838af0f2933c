-- ===== src/L0/Ops/Fresh.antt =====
-- pkg/l0/l0_cache.go: `New` builds a well-formed, empty cache.
use tieredcache.Base.{
  ◌==◌, ◌*◌, ℕ, zero, suc, ◌<◌, lookup, Option-cases, All-get_elem?, ◌≡◌, refl, false, [], Option,
  none, some, Bytes, if◌then◌else◌, arith, inl, inr, ap, ok, ◌∙◌, replicate, length-replicate,
  All-replicate, get_elem?,
}
use tieredcache.Common.Entry.{default_l0_shard_count, weighted_unit_bytes}
use tieredcache.L0.State.{Shard, Cache, Config, empty_slot, new, build, new_shard, ring_size}
use tieredcache.L0.Shard.{IsShard, IsCache, occupied}
use tieredcache.L0.Ops.{shard_index}
use tieredcache.L0.Ops.Place.{entry_at}

occupied-replicate : (n : ℕ) → occupied (replicate n empty_slot) ≡ 0
occupied-replicate zero = refl
occupied-replicate (suc n) = omega (arith, occupied-replicate n)

ring_size_pos : (m n u : ℕ) → 0 < ring_size m n u
unfolding ring_size
ring_size_pos m n u = ground arith

new_shard-IsShard : (n : ℕ) → 0 < n → IsShard (new_shard n)
unfolding new_shard
new_shard-IsShard n h = (
  record {
    whole = length-replicate n empty_slot;
    hand = h;
    counted = omega (arith, occupied-replicate n);
  },
  record { distinct = tt; stored = tt; memory = refl; weights = refl },
)

build-IsCache : (cfg : Config) → IsCache (build cfg)
unfolding build
build-IsCache cfg = record {
  sharded = length-replicate _ _;
  some_shard = ground arith;
  each =
      let count = if cfg.shard_count == 0 then default_l0_shard_count else cfg.shard_count in
      let unit = if cfg.weighted_unit == 0 then weighted_unit_bytes else cfg.weighted_unit in
      let ring = ring_size (cfg.max_memory_mb * 1024 * 1024) count unit in
      All-replicate IsShard count (new_shard ring)
        (new_shard-IsShard ring (ring_size_pos (cfg.max_memory_mb * 1024 * 1024) count unit));
}

build-empty : (cfg : Config) (q : Bytes) → entry_at (build cfg) q ≡ none
unfolding build new_shard entry_at
build-empty cfg q = elim (Option-cases (get_elem? (build cfg).shards (shard_index (build cfg) q))) [
  | inl outside ↦ rw (outside, entry_at) refl
  | inr (s, inside) ↦
      rw (inside, entry_at)
        (ap (lookup q) (
            All-get_elem? (λ (t : Shard). t.entries ≡ []) (build cfg).shards _ s
              (All-replicate (λ (t : Shard). t.entries ≡ []) _ _ refl) inside)
          ∙ (unfold lookup in refl))
]

-- Whatever `New` returns without an error is a well-formed, open cache in which no key is stored.
pub new-IsCache :
    (cfg : Option Config) (c : Cache)
    → new cfg ≡ ok c
    → IsCache c × (c.closed ≡ false) × ((q : Bytes) → entry_at c q ≡ none)
unfolding new
new-IsCache none c e = cc
new-IsCache (some cfg) c e =
    let built : c ≡ build cfg = ground arith in
    rw built (build-IsCache cfg, unfold build in refl, build-empty cfg)
