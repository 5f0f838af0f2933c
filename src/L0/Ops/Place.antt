-- ===== src/L0/Ops/Place.antt =====
-- pkg/l0/l0_cache.go: `getShard` finds a shard of a well-formed cache, and what is read back after
-- that shard has changed.
use tieredcache.Base.{
  ◌<◌, ◌≡◌, Option, none, some, Bytes, length, arith, ◌==◌, ==_iff, done, Bool-cases, ◌⊎◌, inl, inr,
  lookup, get_elem?, get_elem?-some, get_elem?-set_self, get_elem?-set_ne, length-set, All-set,
  All-get_elem?, ◌∙◌, sym,
}
use tieredcache.Common.Entry.{CacheEntry}
use tieredcache.L0.State.{Shard, Cache}
use tieredcache.L0.Shard.{IsShard, IsCache}
use tieredcache.L0.Ops.{shard_index, get_shard, put_shard}

-- The entry that the map of the key's shard holds for the key.
unfoldable pub entry_at : Cache → Bytes → Option CacheEntry
entry_at c q = elim (get_elem? c.shards (shard_index c q)) [
  | none ↦ none
  | some s ↦ lookup q s.entries
]

module _ (c : Cache) (key : Bytes) where
  pub record Located : Type 0 where
    pub shard : Shard
    pub found : get_shard c key ≡ done shard
    pub held : get_elem? c.shards (shard_index c key) ≡ some shard
    pub valid : IsShard shard
    pub reads : entry_at c key ≡ lookup key shard.entries

  shard_index_bound : IsCache c → shard_index c key < length c.shards
  unfolding shard_index
  shard_index_bound h = omega (arith, h.sharded, h.some_shard)

  pub locate : IsCache c → Located
  unfolding get_shard entry_at
  locate h =
      let (s, at_i) = get_elem?-some c.shards (shard_index c key) (shard_index_bound h) in
      record {
        shard = s;
        found = elim (Bool-cases (c.shard_count == 0)) [
          | inl none_there ↦ absurd (ground (arith, h.some_shard))
          | inr e ↦ rw (e, at_i, get_shard)
        ];
        held = at_i;
        valid = All-get_elem? IsShard c.shards (shard_index c key) s h.each at_i;
        reads = rw (at_i, entry_at);
      }

  pub put_shard-IsCache : (s : Shard) → IsCache c → IsShard s → IsCache (put_shard c key s)
  unfolding put_shard
  put_shard-IsCache s h v = record {
    sharded = length-set c.shards (shard_index c key) s ∙ h.sharded;
    some_shard = h.some_shard;
    each = All-set IsShard c.shards (shard_index c key) s h.each v;
  }

  pub entry_at-put_shard_self :
      (s : Shard) → IsCache c → entry_at (put_shard c key s) key ≡ lookup key s.entries
  unfolding entry_at put_shard shard_index
  entry_at-put_shard_self s h =
      rw (get_elem?-set_self c.shards (shard_index c key) s (shard_index_bound h), entry_at)

  -- Another key is read in the new shard if it lies there, and else as before.
  pub entry_at-put_shard :
      (s s' : Shard) (q : Bytes)
      → IsCache c
      → get_elem? c.shards (shard_index c key) ≡ some s
      → ((entry_at (put_shard c key s') q ≡ lookup q s'.entries)
          × (entry_at c q ≡ lookup q s.entries))
        ⊎ (entry_at (put_shard c key s') q ≡ entry_at c q)
  unfolding entry_at put_shard shard_index
  entry_at-put_shard s s' q h held = elim (Bool-cases (shard_index c key == shard_index c q)) [
    | inl e ↦
        let same : shard_index c q ≡ shard_index c key = sym ((==_iff _ _).0 e) in
        inl (
          rw (
            same,
            get_elem?-set_self c.shards (shard_index c key) s' (shard_index_bound h),
            entry_at,
          ),
          rw (same, held, entry_at),
        )
    | inr e ↦ inr (
        rw (
          get_elem?-set_ne c.shards (shard_index c key) (shard_index c q) s' (λ p. ground arith),
          entry_at,
        ))
  ]
