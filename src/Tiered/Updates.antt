-- ===== src/Tiered/Updates.antt =====
-- pkg/tieredcache/tieredcache.go: `Set` and `Delete` over the tiers, and what `Get` returns then.
use tieredcache.Base.{
  ℕ, ◌≡◌, ◌≢◌, ◌≤◌, refl, true, false, [], ◌∷◌, Option, none, some, Bytes, done, ok, is_empty,
  length, bytes_eq_refl, inl, inr, ap, ◌∙◌, ℤ, le→ltb, sym, get_elem?, ◌/◌, ◌^◌,
}
use tieredcache.Common.Errors.{GoError, nil, code, not_found}
use tieredcache.Common.Entry.{new_cache_entry, is_expired_at}
use tieredcache.L0.State.{Cache}
use tieredcache.L0.Ops.Place.{entry_at}
use tieredcache.L0.Ops.Reads.{visible, unexpired}
use tieredcache.L0.Ops.Writes.{set_value-Stores, delete-Deletes}
use tieredcache.L1.Badger.{Badger, found}
use tieredcache.L1.State.{L1Cache, l1_shard_index}
use tieredcache.L1.Reads.{IsL1, l1_entry, IsShardDb, Changes}
use tieredcache.L1.Whole.{set_done, delete_done}
use tieredcache.Replay.Entry.{Time, Codec, op_set, op_delete}
use tieredcache.Tiered.State.{
  TieredCache, set_l0, set_l1, delete_l0, delete_l1, tiered_get, tiered_set, tiered_delete,
  run_promotion, log_entry, wal_entry, last_error,
}
use tieredcache.Tiered.Calls.{IsServing, tiered_get-first, run_promotion-visible}

some_same : {A : Type 0} {x y : A} → some x ≡ some y → x ≡ y
some_same e = cc

module _ {badger : Badger} where
  module _ (codec : Codec) (time : Time) (fault : Option ℕ) (c : TieredCache badger) (a : Cache)
      (b : L1Cache badger) (key : Bytes) (h : IsServing c a b) (k : is_empty key ≡ false) where
    live_entry :
        (value : Bytes) (ttl : ℤ) (now later : ℕ)
        → is_expired_at ttl now later ≡ false
        → unexpired later (some (new_cache_entry key value ttl now)) ≡ some value
    unfolding new_cache_entry
    live_entry value ttl now later live = rw live refl

    -- `Set` of a value that is not empty and within the limits of the cache and of L0, by a key that is
    -- not empty and no longer than L0's limit, returns nil whatever L1 and the log do; until the time to live runs out, a `Get` returns the value, also when the
    -- transaction of L1 has failed.
    pub tiered_get-tiered_set :
        (value : Bytes) (ttl : ℤ) (now later : ℕ)
        → is_empty value ≡ false
        → length value ≤ c.max_payload_bytes
        → length value ≤ a.max_payload
        → length key ≤ a.max_payload
        → is_expired_at ttl now later ≡ false
        → (c1 c2 : TieredCache badger) × (tiered_set codec time fault c key value ttl now
            ≡ done (c1, nil))
          × (tiered_get c1 key later ≡ done (c2, ok value))
    unfolding tiered_set set_l0 set_l1
    tiered_get-tiered_set value ttl now later full fits fits0 short live =
        let (a', ran0, valid0, config, stored, _) =
          set_value-Stores a key h.ready.valid0 h.ready.open0 value ttl now k full fits0 in
        let (b', err, ran1, valid1, open1, _) =
          set_done b key h.ready.valid1 h.ready.open1 k value ttl now in
        let fits_too = le→ltb c.max_payload_bytes (length value) fits in
        let m = log_entry codec time fault (wal_entry op_set key value) (some b') c.recovery in
        let c1 : TieredCache badger = record c {
          l0 = some a';
          l1 = some b';
          recovery = m;
          initialized = true;
          closed = false;
        } in
        let serving : IsServing c1 a' b' = record {
          has_l0 = refl;
          has_l1 = refl;
          started = refl;
          not_closed = refl;
          ready = record {
            valid0 = valid0;
            open0 = config.closed ∙ h.ready.open0;
            valid1 = valid1;
            open1 = open1;
          };
        } in
        let shown : visible a' later key ≡ some value =
          ap (unexpired later) stored ∙ live_entry value ttl now later live in
        let (c2, _, _, got, _, _) =
          tiered_get-first c1 a' b' key serving k later (rw config.max_payload short) in
        (
          c1,
          c2,
          simp (h.started, h.not_closed, fits_too, h.has_l0, ran0, h.has_l1, ran1) refl,
          rw shown at got,
        )

    -- `Delete` by a key that is not empty takes the key out of L0, and runs the transaction on the
    -- database of the key's shard of L1: if that answers nil, the key is gone from L1 too, and else L1
    -- holds what it held. Every other key stays in both tiers as it was. The error is what the
    -- transaction answers, or, if that is nil, `ErrCodeNotFound` where L0 did not have the key, also if
    -- L1 had it. The promotions that wait still wait.
    pub tiered_delete-Deletes :
        (c1 : TieredCache badger) × (a1 : Cache) × (b1 : L1Cache badger) × (db : badger.Db)
        × IsShardDb b key h.ready.valid1 db
        × (tiered_delete codec time fault c key
            ≡ done (
              c1,
              last_error
                  (elim (entry_at a key) [ none ↦ code not_found | some _ ↦ nil ])
                  (badger.delete_entry key db).0,
            ))
        × IsServing c1 a1 b1
        × (a1.max_payload ≡ a.max_payload)
        × (entry_at a1 key ≡ none)
        × ((q : Bytes) → q ≢ key → entry_at a1 q ≡ entry_at a q)
        × Changes b key h.ready.valid1 none b1 (badger.delete_entry key db).0
        × (c1.promotions ≡ c.promotions)
    unfolding tiered_delete delete_l0 delete_l1
    tiered_delete-Deletes =
        let (a', ran0, valid0, config, gone, others) =
          delete-Deletes a key h.ready.valid0 h.ready.open0 k in
        let (b', db, held, ran1, valid1, open1, changes) =
          delete_done b key h.ready.valid1 h.ready.open1 k in
        let m = log_entry codec time fault (wal_entry op_delete key []) (some b') c.recovery in
        let c1 : TieredCache badger = record c {
          l0 = some a';
          l1 = some b';
          recovery = m;
          initialized = true;
          closed = false;
        } in
        (
          c1,
          a',
          b',
          db,
          held,
          simp (h.started, h.not_closed, h.has_l0, ran0, h.has_l1, ran1) refl,
          record {
            has_l0 = refl;
            has_l1 = refl;
            started = refl;
            not_closed = refl;
            ready = record {
              valid0 = valid0;
              open0 = config.closed ∙ h.ready.open0;
              valid1 = valid1;
              open1 = open1;
            };
          },
          config.max_payload,
          gone,
          others,
          changes,
          refl,
        )

module _ {badger : Badger} where
  -- The transaction has answered nil: L1 does not hold the key.
  Changes-gone :
      (b : L1Cache badger) (key : Bytes) (h : IsL1 b) (b' : L1Cache badger) (err : GoError)
      → err ≡ nil
      → Changes b key h none b' err
      → l1_entry b' key ≡ none
  Changes-gone b key h b' err good (inl (_, all)) = rw (bytes_eq_refl key) at (all key)
  Changes-gone b key h b' err good (inr (bad, _)) = absurd (bad good)

  module _ (codec : Codec) (time : Time) (fault : Option ℕ) (c : TieredCache badger) (a : Cache)
      (b : L1Cache badger) (key : Bytes) (h : IsServing c a b) (k : is_empty key ≡ false) where
    -- A `Delete` that comes between a `Get` that found the key in L1 only and the promotion that the
    -- `Get` started does not last: the `Get` returns the value, the `Delete` takes the key out of both
    -- tiers if its transaction in L1 answers nil, and once the promotion has run, each later `Get`
    -- returns the deleted value. The value is not empty and within L0's limit, and so is the key.
    pub tiered_delete-promoted :
        (v : Bytes) (db : badger.Db) (before now later : ℕ)
        → visible a before key ≡ none
        → IsShardDb b key h.ready.valid1 db
        → badger.read (before / 10 ^ 9) key db ≡ found v
        → (badger.delete_entry key db).0 ≡ nil
        → is_empty v ≡ false
        → length v ≤ a.max_payload
        → length key ≤ a.max_payload
        → (c0 c1 c2 c3 : TieredCache badger) × (err : GoError) × (a1 : Cache) × (b1 : L1Cache
            badger)
          × (tiered_get c key before ≡ done (c0, ok v))
          × (tiered_delete codec time fault c0 key ≡ done (c1, err))
          × IsServing c1 a1 b1
          × (entry_at a1 key ≡ none)
          × (l1_entry b1 key ≡ none)
          × (run_promotion c1 c1.promotions now ≡ done c2)
          × (tiered_get c2 key later ≡ done (c3, ok v))
    unfolding l1_shard_index
    tiered_delete-promoted v db before now later hidden held reads good full fits short =
        let (c0, db0, held0, got0, _, after) = tiered_get-first c a b key h k before short in
        let same0 : db0 ≡ db = some_same (sym held0 ∙ held) in
        let found0 : badger.read (before / 10 ^ 9) key db0 ≡ found v = rw same0 reads in
        let b0 = after.l1_after in
        let (c1, a1, b1, db1, held1, deleted, serving1, same, gone, _, changes, kept) =
          tiered_delete-Deletes codec time fault c0 after.l0_after b0 key after.serving k in
        let at1 : get_elem? b0.shards (l1_shard_index b0 key)
            ≡ get_elem? b.shards (l1_shard_index b key) =
          rw (after.shards, after.shard_count) refl in
        let same1 : db1 ≡ db = some_same (sym held1 ∙ (at1 ∙ held)) in
        let good1 : (badger.delete_entry key db1).0 ≡ nil = rw same1 good in
        let waits : c0.promotions ≡ (key, v) ∷ c.promotions =
          after.promoted ∙ rw (hidden, found0) refl in
        let limit : a1.max_payload ≡ a.max_payload = same ∙ after.limit in
        let (c2, a2, ran, serving2, same2, shown) =
          run_promotion-visible c1 a1 b1 key serving1 k v c.promotions now full (rw limit fits) in
        let (c3, _, _, got, _, _) =
          tiered_get-first c2 a2 b1 key serving2 k later (rw (same2 ∙ limit) short) in
        (
          c0,
          c1,
          c2,
          c3,
          _,
          a1,
          b1,
          got0 ∙ rw (hidden, found0) refl,
          deleted,
          serving1,
          gone,
          Changes-gone b0 key after.serving.ready.valid1 b1 _ good1 changes,
          ap (λ ps. run_promotion c1 ps now) (kept ∙ waits) ∙ ran,
          rw (shown later) at got,
        )
