-- ===== src/L0/Ops/Writes.antt =====
-- pkg/l0/l0_cache.go: `Set`, `Delete` and `Demote` on a well-formed cache.
use tieredcache.Base.{
  ℕ, ◌≤◌, ◌≡◌, ◌≢◌, refl, false, none, some, Bytes, length, arith, le→ltb, done, ◌⊎◌, inl, inr,
  lookup, is_empty, ℤ, ◌∙◌, ap, sym, add64, Returns-result, lookup-remove_self, lookup-remove_ne,
  Option-cases,
}
use tieredcache.Common.Errors.{nil, code, not_found}
use tieredcache.Common.Entry.{CacheEntry, new_cache_entry}
use tieredcache.L0.State.{Shard, Cache}
use tieredcache.L0.Shard.{IsShard, IsCache, IsStored}
use tieredcache.L0.Clock.{clear_slot}
use tieredcache.L0.Clock.Ring.{clear_slot-IsRing}
use tieredcache.L0.Clock.Evict.{remove-IsAccounted}
use tieredcache.L0.Ops.{
  dropped, delete_found, demote_found, set_value, set_in_shard, put_shard, shard_memory_limit,
  delete, demote,
}
use tieredcache.L0.Ops.Room.{set_in_shard-SetDone, IsAccounted-Keeps}
use tieredcache.L0.Ops.Place.{entry_at, locate}
use tieredcache.L0.Ops.Written.{SameConfig, put_shard-Written, Written-there}

pub new_cache_entry-IsStored :
    (key value : Bytes) (ttl : ℤ) (now : ℕ)
    → is_empty key ≡ false
    → IsStored (key, new_cache_entry key value ttl now)
unfolding new_cache_entry
new_cache_entry-IsStored key value ttl now h = record {
  keyed = h;
  own_key = refl;
  sized = refl;
  weighed = refl;
}

dropped-IsShard :
    (key : Bytes) (e : CacheEntry) (s : Shard)
    → IsShard s
    → lookup key s.entries ≡ some e
    → IsShard (dropped key e s)
dropped-IsShard key e s h found = (
  record { whole = h.0.whole; hand = h.0.hand; counted = h.0.counted },
  remove-IsAccounted key e s (dropped key e s) h.1 found refl refl refl,
)

module _ (c : Cache) (key : Bytes) (h : IsCache c) (is_open : c.closed ≡ false) where
  -- On an open, well-formed cache, `Set` with a key that is not empty and a value that is not
  -- empty and within the payload limit returns no error. The key then has the new entry, every
  -- other key its entry as before or none (an eviction), and the cache is well formed, with the
  -- limits and the flag `closed` as before.
  pub set_value-Stores :
      (value : Bytes) (ttl : ℤ) (now : ℕ)
      → is_empty key ≡ false
      → is_empty value ≡ false
      → length value ≤ c.max_payload
      → (c' : Cache) × (set_value c key value ttl now ≡ done (c', nil))
        × IsCache c'
        × SameConfig c c'
        × (entry_at c' key ≡ some (new_cache_entry key value ttl now))
        × ((q : Bytes) → q ≢ key → (entry_at c' q ≡ entry_at c q) ⊎ (entry_at c' q ≡ none))
  unfolding set_value
  set_value-Stores value ttl now k v fits =
      let at = locate c key h in
      let e = new_cache_entry key value ttl now in
      let (s', ran, d) = Returns-result (set_in_shard (shard_memory_limit c) key e at.shard) _ (
        set_in_shard-SetDone (shard_memory_limit c) key e at.shard at.valid
          (new_cache_entry-IsStored key value ttl now k)) in
      let c' : Cache = record (put_shard c key s') { sets = add64 c.sets 1 } in
      let w = put_shard-Written c key at s' c' h d.valid (record {
        shards = refl;
        shard_count = refl;
        config = record { max_memory = refl; max_payload = refl; closed = refl };
      }) in
      (
        c',
        simp (is_open, k, v, le→ltb c.max_payload (length value) fits, at.found, ran),
        w.valid,
        w.config,
        w.here ∙ d.stored,
        λ q ne. elim (w.there q) [
          | inl (new, old) ↦ elim (d.others q ne) [
            | inl still ↦ inl (new ∙ still ∙ sym old)
            | inr gone ↦ inr (new ∙ gone)
          ]
          | inr apart ↦ inl apart
        ],
      )

  -- `Delete` of a key that is not empty: nil if the map held an entry for the key, else
  -- `ErrCodeNotFound`. Afterwards the key has no entry, every other key has its entry as before,
  -- and the cache is well formed, with the limits and the flag `closed` as before.
  pub delete-Deletes :
      is_empty key ≡ false
      → (c' : Cache) × (delete c key
          ≡ done (c', elim (entry_at c key) [ none ↦ code not_found | some _ ↦ nil ]))
        × IsCache c'
        × SameConfig c c'
        × (entry_at c' key ≡ none)
        × ((q : Bytes) → q ≢ key → entry_at c' q ≡ entry_at c q)
  unfolding delete delete_found
  delete-Deletes k =
      let at = locate c key h in
      elim (Option-cases (lookup key at.shard.entries)) [
        | inl absent ↦ (
          c,
          rw (at.reads, absent) (simp (is_open, k, at.found, absent)),
          h,
          record { max_memory = refl; max_payload = refl; closed = refl },
          at.reads ∙ absent,
          λ q ne. refl,
        )
        | inr (e, found) ↦
            let s' = dropped key e at.shard in
            let w =
              put_shard-Written c key at s'
                (record (put_shard c key s') { deletes = add64 c.deletes 1 }) h
                (dropped-IsShard key e at.shard at.valid found)
                (record {
                  shards = refl;
                  shard_count = refl;
                  config = record { max_memory = refl; max_payload = refl; closed = refl };
                }) in
            (
              record (put_shard c key s') { deletes = add64 c.deletes 1 },
              rw (at.reads, found) (simp (is_open, k, at.found, found)),
              w.valid,
              w.config,
              w.here ∙ lookup-remove_self key at.shard.entries,
              λ q ne. Written-there c key at s' _ w q (lookup-remove_ne key q at.shard.entries ne),
            )
      ]

  -- `Demote` of a key that is not empty: nil if the map held an entry for the key, else
  -- `ErrCodeNotFound`, and never a panic in its search of the ring. Afterwards the key has no
  -- entry, every other key has its entry as before, and the cache is well formed, with the limits and the flag `closed` as before.
  pub demote-Demotes :
      is_empty key ≡ false
      → (c' : Cache) × (demote c key
          ≡ done (c', elim (entry_at c key) [ none ↦ code not_found | some _ ↦ nil ]))
        × IsCache c'
        × SameConfig c c'
        × (entry_at c' key ≡ none)
        × ((q : Bytes) → q ≢ key → entry_at c' q ≡ entry_at c q)
  unfolding demote demote_found
  demote-Demotes k =
      let at = locate c key h in
      elim (Option-cases (lookup key at.shard.entries)) [
        | inl absent ↦ (
          c,
          rw (at.reads, absent) (simp (is_open, at.found, absent)),
          h,
          record { max_memory = refl; max_payload = refl; closed = refl },
          at.reads ∙ absent,
          λ q ne. refl,
        )
        | inr (e, found) ↦
            let s = dropped key e at.shard in
            let ok = dropped-IsShard key e at.shard at.valid found in
            let (s', ran, ring) =
              Returns-result (clear_slot at.shard.freq_cap 0 key s) _
                (clear_slot-IsRing at.shard.freq_cap 0 key s ok.0 k (omega arith)) in
            let w =
              put_shard-Written c key at s' (put_shard c key s') h
                (ring.0, IsAccounted-Keeps s s' ring.1 ok.1)
                (record {
                  shards = refl;
                  shard_count = refl;
                  config = record { max_memory = refl; max_payload = refl; closed = refl };
                }) in
            (
              put_shard c key s',
              rw (at.reads, found) (simp (is_open, at.found, found, ran)),
              w.valid,
              w.config,
              w.here ∙ ap (lookup key) ring.1.entries ∙ lookup-remove_self key at.shard.entries,
              λ q ne.
                  Written-there c key at s' _ w q
                    (ap (lookup q) ring.1.entries ∙ lookup-remove_ne key q at.shard.entries ne),
            )
      ]
