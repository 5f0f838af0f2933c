-- ===== src/L0/Ops/Written.antt =====
-- pkg/l0/l0_cache.go: the cache after a write to one shard, whatever its counters.
use tieredcache.Base.{◌≡◌, refl, Bytes, ◌⊎◌, inl, inr, lookup, ◌∙◌, sym}
use tieredcache.L0.State.{Shard, Cache}
use tieredcache.L0.Shard.{IsShard, IsCache}
use tieredcache.L0.Ops.{shard_index, put_shard}
use tieredcache.L0.Ops.Place.{
  entry_at, Located, put_shard-IsCache, entry_at-put_shard_self, entry_at-put_shard,
}

-- What the operations leave alone.
pub record SameConfig (c c' : Cache) : Type 0 where
  pub max_memory : c'.max_memory ≡ c.max_memory
  pub max_payload : c'.max_payload ≡ c.max_payload
  pub closed : c'.closed ≡ c.closed

pub put_shard-SameConfig : (c : Cache) (key : Bytes) (s : Shard) → SameConfig c (put_shard c key s)
unfolding put_shard
put_shard-SameConfig c key s = record { max_memory = refl; max_payload = refl; closed = refl }

pub SameConfig-trans : (c d e : Cache) → SameConfig c d → SameConfig d e → SameConfig c e
SameConfig-trans c d e h k = record {
  max_memory = k.max_memory ∙ h.max_memory;
  max_payload = k.max_payload ∙ h.max_payload;
  closed = k.closed ∙ h.closed;
}

-- The counters of a cache are no part of its well-formedness, nor of what is read.
pub record SameMap (c c' : Cache) : Type 0 where
  pub shards : c'.shards ≡ c.shards
  pub shard_count : c'.shard_count ≡ c.shard_count
  pub config : SameConfig c c'

pub IsCache-SameMap : (c c' : Cache) → SameMap c c' → IsCache c → IsCache c'
IsCache-SameMap c c' k h = record {
  sharded = rw (k.shards, k.shard_count) h.sharded;
  some_shard = rw k.shard_count h.some_shard;
  each = rw k.shards h.each;
}

pub entry_at-SameMap : (c c' : Cache) (q : Bytes) → SameMap c c' → entry_at c' q ≡ entry_at c q
unfolding entry_at shard_index
entry_at-SameMap c c' q k = rw (k.shards, k.shard_count, entry_at)

-- The cache `c'` is `c` with the key's shard replaced by `s'`.
pub record Written (c : Cache) (key : Bytes) (at : Located c key) (s' : Shard) (c' : Cache)
    : Type 0 where
  pub valid : IsCache c'
  pub config : SameConfig c c'
  pub here : entry_at c' key ≡ lookup key s'.entries
  pub there :
      (q : Bytes)
      → ((entry_at c' q ≡ lookup q s'.entries) × (entry_at c q ≡ lookup q at.shard.entries))
        ⊎ (entry_at c' q ≡ entry_at c q)

pub put_shard-Written :
    (c : Cache) (key : Bytes) (at : Located c key) (s' : Shard) (c' : Cache)
    → IsCache c
    → IsShard s'
    → SameMap (put_shard c key s') c'
    → Written c key at s' c'
put_shard-Written c key at s' c' h v same = record {
  valid = IsCache-SameMap (put_shard c key s') c' same (put_shard-IsCache c key s' h v);
  config = SameConfig-trans c (put_shard c key s') c' (put_shard-SameConfig c key s') same.config;
  here = entry_at-SameMap _ c' key same ∙ entry_at-put_shard_self c key s' h;
  there = λ q. elim (entry_at-put_shard c key at.shard s' q h at.held) [
    | inl (new, old) ↦ inl (entry_at-SameMap _ c' q same ∙ new, old)
    | inr apart ↦ inr (entry_at-SameMap _ c' q same ∙ apart)
  ];
}

-- Where the shard's map answers a key as before, so does the cache.
pub Written-there :
    (c : Cache) (key : Bytes) (at : Located c key) (s' : Shard) (c' : Cache)
    → Written c key at s' c'
    → (q : Bytes) → lookup q s'.entries ≡ lookup q at.shard.entries
    → entry_at c' q ≡ entry_at c q
Written-there c key at s' c' w q e = elim (w.there q) [
  | inl (new, old) ↦ new ∙ e ∙ sym old
  | inr apart ↦ apart
]
