-- ===== src/L0/Ops/Reads.antt =====
-- pkg/l0/l0_cache.go: `Get`, `GetOrSet`, `Exists` on a well-formed cache, against the values that
-- the cache shows.
use tieredcache.Base.{
  ℕ, ◌≤◌, ◌≡◌, refl, false, Option, none, some, Bytes, length, if◌then◌else◌, arith, le→ltb, done,
  inl, inr, lookup, insert, is_empty, ◌∙◌, ap, sym, add64, Result, ok, fail, lookup-insert, List,
  bytes_eq, bytes_eq_iff, Bool-cases, Option-cases, total-insert, insert-IsMap, All-insert,
  All-lookup,
}
use tieredcache.Common.Errors.{GoError, code, not_found}
use tieredcache.Common.Entry.{CacheEntry, is_expired}
use tieredcache.L0.State.{Shard, Cache}
use tieredcache.L0.Shard.{IsShard, IsCache, IsStored, IsRing}
use tieredcache.L0.Ops.{get, get_found, missed, touched, put_shard}
use tieredcache.L0.Ops.Place.{entry_at, Located, locate}
use tieredcache.L0.Ops.Room.{IsAccounted-Keeps}
use tieredcache.L0.Ops.Written.{SameConfig, Written, put_shard-Written}

abbrev pub unexpired : ℕ → Option CacheEntry → Option Bytes
unexpired now none = none
unexpired now (some e) = if is_expired e now then none else some e.value

-- The value that the cache shows for a key at a time: of the key's entry, if it has not expired.
abbrev pub visible : Cache → ℕ → Bytes → Option Bytes
visible c now q = unexpired now (entry_at c q)

-- What `Get` returns for a value that is shown, or not.
abbrev pub get_result : Option Bytes → Result GoError Bytes
get_result none = fail (code not_found)
get_result (some v) = ok v

touched-IsShard :
    (key : Bytes) (e : CacheEntry) (now : ℕ) (s s' : Shard)
    → IsShard s
    → lookup key s.entries ≡ some e
    → s' ≡ record s { entries = insert key (touched e now) s.entries; hits = add64 s.hits 1 }
    → IsShard s'
touched-IsShard key e now s s' h found same =
    let old = All-lookup IsStored key s.entries e h.1.stored found in
    rw same (
      record { whole = h.0.whole; hand = h.0.hand; counted = h.0.counted },
      record {
        distinct = insert-IsMap key (touched e now) s.entries h.1.distinct;
        stored =
            All-insert IsStored key (touched e now) s.entries
              (record {
                keyed = old.keyed;
                own_key = old.own_key;
                sized = old.sized;
                weighed = old.weighed;
              })
              h.1.stored;
        memory = ground (
          arith,
          h.1.memory,
          total-insert key (λ (x : CacheEntry). x.size) (touched e now) s.entries,
        );
        weights = ground (
          arith,
          h.1.weights,
          total-insert key (λ (x : CacheEntry). x.weight) (touched e now) s.entries,
        );
      },
    )

-- What holds after a call that only reads.
pub record Reads (c c' : Cache) : Type 0 where
  pub valid : IsCache c'
  pub config : SameConfig c c'
  pub shows : (now : ℕ) (q : Bytes) → visible c' now q ≡ visible c now q

Written-Reads :
    (c : Cache) (key : Bytes) (at : Located c key) (s' : Shard) (c' : Cache)
    → Written c key at s' c'
    → ((t : ℕ) (q : Bytes)
        → unexpired t (lookup q s'.entries) ≡ unexpired t (lookup q at.shard.entries))
    → Reads c c'
Written-Reads c key at s' c' w same = record {
  valid = w.valid;
  config = w.config;
  shows = λ t q. elim (w.there q) [
    | inl (new, old) ↦ ap (unexpired t) new ∙ same t q ∙ sym (ap (unexpired t) old)
    | inr apart ↦ ap (unexpired t) apart
  ];
}

-- An access changes no value that is shown.
touched_shows :
    (key : Bytes) (e : CacheEntry) (now t : ℕ) (m : List (Bytes × CacheEntry)) (q : Bytes)
    → lookup key m ≡ some e
    → unexpired t (lookup q (insert key (touched e now) m)) ≡ unexpired t (lookup q m)
touched_shows key e now t m q found =
    rw (lookup-insert key q (touched e now) m) (elim (Bool-cases (bytes_eq key q)) [
      | inl same ↦ rw (same, ← (bytes_eq_iff key q).0 same, found) refl
      | inr other ↦ rw other refl
    ])

module _ (c : Cache) (key : Bytes) (now : ℕ) (h : IsCache c) where
  missed-Reads : (at : Located c key) → Reads c (missed c key at.shard)
  missed-Reads at =
      let s' : Shard = record (at.shard) { misses = add64 at.shard.misses 1 } in
      let ring : IsRing s' = record {
        whole = at.valid.0.whole;
        hand = at.valid.0.hand;
        counted = at.valid.0.counted;
      } in
      let acc =
        IsAccounted-Keeps at.shard s' (record { entries = refl; memory = refl; weights = refl })
          at.valid.1 in
      Written-Reads c key at s' (missed c key at.shard)
        (put_shard-Written c key at s' (missed c key at.shard) h (ring, acc)
          (record {
            shards = refl;
            shard_count = refl;
            config = record { max_memory = refl; max_payload = refl; closed = refl };
          }))
        (λ t q. refl)

  get_found-visible :
      (at : Located c key)
      → (c' : Cache) × (get_found c key now at.shard (lookup key at.shard.entries)
          ≡ done (c', get_result (unexpired now (lookup key at.shard.entries))))
        × Reads c c'
  unfolding get_found
  get_found-visible at = elim (Option-cases (lookup key at.shard.entries)) [
    | inl absent ↦ (missed c key at.shard, rw absent refl, missed-Reads at)
    | inr (e, found) ↦ elim (Bool-cases (is_expired e now)) [
      | inl late ↦ (missed c key at.shard, rw found (rw late refl), missed-Reads at)
      | inr live ↦
          let s' : Shard = record (at.shard) {
            entries = insert key (touched e now) at.shard.entries;
            hits = add64 at.shard.hits 1;
          } in
          let c' : Cache = record (put_shard c key s') { hits = add64 c.hits 1 } in
          (
            c',
            rw found (rw live refl),
            Written-Reads c key at s' c'
                (put_shard-Written c key at s' c' h
                  (touched-IsShard key e now at.shard s' at.valid found refl)
                  (record {
                    shards = refl;
                    shard_count = refl;
                    config = record { max_memory = refl; max_payload = refl; closed = refl };
                  }))
                (λ t q. touched_shows key e now t at.shard.entries q found),
          )
    ]
  ]

  -- On an open, well-formed cache, `Get` with a key that is not empty and within the payload limit
  -- returns exactly the value that the cache shows for the key at that time, or
  -- `ErrCodeNotFound` if it shows none. The call keeps the cache well formed, its limits and the flag
  -- `closed`, and changes no value that is shown, for any key at any time.
  pub get-visible :
      c.closed ≡ false
      → is_empty key ≡ false
      → length key ≤ c.max_payload
      → (c' : Cache) × (get c key now ≡ done (c', get_result (visible c now key))) × Reads c c'
  unfolding get
  get-visible is_open k fits =
      let at = locate c key h in
      let (c', ran, reads) = get_found-visible at in
      (
        c',
        rw at.reads (simp (is_open, k, le→ltb c.max_payload (length key) fits, at.found, ran)),
        reads,
      )
