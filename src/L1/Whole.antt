-- ===== src/L1/Whole.antt =====
-- pkg/l1/l1_badger.go: the operations of an open cache return on every branch.
use tieredcache.Base.{
  ℕ, ◌≡◌, ◌≢◌, ◌<◌, refl, false, Bytes, leb, is_empty, done, ℤ, Bool-cases, inl, inr, ◌⊎◌, some,
  none, arith, length, ◌/◌, ◌^◌, Result, ◌∙◌, ap, sym,
}
use tieredcache.Common.Errors.{GoError, nil}
use tieredcache.L1.Badger.{Badger, failed, read_of}
use tieredcache.L1.State.{
  L1Cache, l1_empty_value, l1_at_capacity, disk_usage, expires_at, l1_set, l1_delete, l1_get,
  l1_got, l1_put_shard,
}
use tieredcache.L1.Reads.{
  IsL1, l1_entry, Changes, IsShardDb, l1_set-Changes, l1_delete-Changes, l1_get-reads, read_result,
  locate,
}

module _ {badger : Badger} (c : L1Cache badger) (key : Bytes) (h : IsL1 c)
    (is_open : c.closed ≡ false) (k : is_empty key ≡ false) where
  -- The run of `Set` changes nothing but the shard and a counter.
  set-closed :
      (value : Bytes) (ttl : ℤ) (now : ℕ) (c' : L1Cache badger) (err : GoError)
      → l1_set c key value ttl now ≡ done (c', err)
      → c'.closed ≡ false
  unfolding l1_set l1_put_shard
  set-closed value ttl now c' err ran = ground (arith, is_open, ran, (locate c key h).found)

  -- Whatever the value, a `Set` of a key that is not empty returns, and either the key has the
  -- value and nothing else has changed, or the result is an error and nothing has changed.
  pub l1_set-returns :
      (value : Bytes) (ttl : ℤ) (now : ℕ)
      → (c' : L1Cache badger) × (err : GoError) × (l1_set c key value ttl now ≡ done (c', err))
        × IsL1 c'
        × Changes c key h (some (value, expires_at ttl now)) c' err
  l1_set-returns value ttl now = elim (Bool-cases (is_empty value)) [
    | inl v ↦ (
      c,
      l1_empty_value,
      unfold l1_set in simp (is_open, k, v) refl,
      h,
      inr ((λ q. cc), λ q. refl),
    )
    | inr v ↦ elim (Bool-cases (leb c.max_capacity (disk_usage c))) [
      | inl full ↦ (
        c,
        l1_at_capacity,
        unfold l1_set in simp (is_open, k, v, full) refl,
        h,
        inr ((λ q. cc), λ q. refl),
      )
      | inr room ↦
          let lt : disk_usage c < c.max_capacity = ground (arith, room) in
          let (c', db, _, ran, valid, changes) =
            l1_set-Changes c key h value ttl now is_open k v lt in
          (c', (badger.set_entry key value (expires_at ttl now) db).0, ran, valid, changes)
    ]
  ]

  delete-closed :
      (c' : L1Cache badger) (err : GoError) → l1_delete c key ≡ done (c', err) → c'.closed ≡ false
  unfolding l1_delete l1_put_shard
  delete-closed c' err ran = ground (arith, is_open, ran, (locate c key h).found)

  get-kept :
      (now : ℕ) (c' : L1Cache badger) (r : Result GoError Bytes)
      → l1_get c key now ≡ done (c', r)
      → (c'.closed ≡ false) × (c'.shards ≡ c.shards) × (c'.shard_count ≡ c.shard_count)
  unfolding l1_get l1_got
  get-kept now c' r ran = ground (arith, is_open, ran, (locate c key h).found)

  get-IsL1 : (c' : L1Cache badger) → c'.shards ≡ c.shards → c'.shard_count ≡ c.shard_count → IsL1 c'
  get-IsL1 c' shards count = record {
    sharded = ap length shards ∙ h.sharded ∙ sym count;
    some_shard = omega (arith, h.some_shard, count);
  }

  -- The three operations with all that is known of the cache afterwards.
  pub set_done :
      (value : Bytes) (ttl : ℤ) (now : ℕ)
      → (c' : L1Cache badger) × (err : GoError) × (l1_set c key value ttl now ≡ done (c', err))
        × IsL1 c'
        × (c'.closed ≡ false)
        × Changes c key h (some (value, expires_at ttl now)) c' err
  set_done value ttl now =
      let (c', err, ran, valid, changes) = l1_set-returns value ttl now in
      (c', err, ran, valid, set-closed value ttl now c' err ran, changes)

  pub delete_done :
      (c' : L1Cache badger) × (db : badger.Db) × IsShardDb c key h db
      × (l1_delete c key ≡ done (c', (badger.delete_entry key db).0))
      × IsL1 c'
      × (c'.closed ≡ false)
      × Changes c key h none c' (badger.delete_entry key db).0
  delete_done =
      let (c', db, held, ran, valid, changes) = l1_delete-Changes c key h is_open k in
      (c', db, held, ran, valid, delete-closed c' (badger.delete_entry key db).0 ran, changes)

  pub get_done :
      (now : ℕ)
      → (c' : L1Cache badger) × (db : badger.Db) × IsShardDb c key h db
        × (l1_get c key now ≡ done (c', read_result c key h (badger.read (now / 10 ^ 9) key db)))
        × IsL1 c'
        × (c'.closed ≡ false)
        × (((e : GoError) × (e ≢ nil) × (badger.read (now / 10 ^ 9) key db ≡ failed e))
            ⊎ (badger.read (now / 10 ^ 9) key db ≡ read_of (now / 10 ^ 9) (l1_entry c key)))
        × ((q : Bytes) → l1_entry c' q ≡ l1_entry c q)
        × (c'.shards ≡ c.shards)
        × (c'.shard_count ≡ c.shard_count)
  get_done now =
      let (c', db, held, ran, reads, same) = l1_get-reads c key h now is_open k in
      let (still, shards, count) = get-kept now c' _ ran in
      (c', db, held, ran, get-IsL1 c' shards count, still, reads, same, shards, count)
