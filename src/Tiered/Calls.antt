-- ===== src/Tiered/Calls.antt =====
-- pkg/tieredcache/tieredcache.go: `Get` over the tiers, and the promotions that it starts.
use tieredcache.Base.{
  ℕ, ◌≡◌, ◌≢◌, ◌≤◌, ◌/◌, ◌^◌, refl, true, false, List, ◌∷◌, Option, none, some, Bytes, done, Result,
  ok, fail, is_empty, length, Option-cases, inl, inr, ◌⊎◌, ap, ◌∙◌, pos,
}
use tieredcache.Common.Errors.{GoError, nil, code, not_found}
use tieredcache.Common.Entry.{new_cache_entry}
use tieredcache.L0.State.{Cache}
use tieredcache.L0.Shard.{IsCache}
use tieredcache.L0.Ops.Reads.{visible, unexpired, get-visible, get_result}
use tieredcache.L0.Ops.Writes.{set_value-Stores}
use tieredcache.L1.Badger.{Badger, Read, found, absent, failed, read_of}
use tieredcache.L1.State.{L1Cache}
use tieredcache.L1.Reads.{IsL1, l1_entry, read_result, IsShardDb}
use tieredcache.L1.Whole.{get_done}
use tieredcache.Tiered.Moved.{IsReady}
use tieredcache.Tiered.State.{
  TieredCache, try_l0, try_l1, try_l2, l2_result, set_l0, after_l0, after_l1, tiered_get,
  run_promotion, value_of,
}

-- The value of the first tier that has one.
abbrev pub first_found : Option Bytes → Option Bytes → Option Bytes → Result GoError Bytes
first_found (some v) _ _ = ok v
first_found none (some v) _ = ok v
first_found none none (some v) = ok v
first_found none none none = fail (code not_found)

-- The value that is read.
abbrev pub read_value : Read → Option Bytes
read_value (found v) = some v
read_value absent = none
read_value (failed e) = none

module _ {badger : Badger} where
  -- A cache that takes calls, with both tiers.
  pub record IsServing (c : TieredCache badger) (a : Cache) (b : L1Cache badger) : Type 0 where
    pub has_l0 : c.l0 ≡ some a
    pub has_l1 : c.l1 ≡ some b
    pub started : c.initialized ≡ true
    pub not_closed : c.closed ≡ false
    pub ready : IsReady a b

  module _ (c : TieredCache badger) (a : Cache) (b : L1Cache badger) (key : Bytes)
      (h : IsServing c a b) (k : is_empty key ≡ false) where
    value_of-get_result : (o : Option Bytes) → value_of (get_result o) ≡ o
    value_of-get_result none = refl
    value_of-get_result (some v) = refl

    value_of-read_result : (r : Read) → value_of (read_result b key h.ready.valid1 r) ≡ read_value r
    value_of-read_result (found v) = refl
    value_of-read_result absent = refl
    value_of-read_result (failed e) = refl

    try_l0-visible :
        (now : ℕ)
        → length key ≤ a.max_payload
        → (a' : Cache) × (try_l0 (some a) key now ≡ done (some a', visible a now key))
          × IsCache a'
          × (a'.closed ≡ false)
          × (a'.max_payload ≡ a.max_payload)
    unfolding try_l0
    try_l0-visible now fits =
        let (a', got, reads) = get-visible a key now h.ready.valid0 h.ready.open0 k fits in
        (
          a',
          rw got (ap (λ o. done (some a', o)) (value_of-get_result (visible a now key))),
          reads.valid,
          reads.config.closed ∙ h.ready.open0,
          reads.config.max_payload,
        )

    try_l1-reads :
        (now : ℕ)
        → (b' : L1Cache badger) × (db : badger.Db) × IsShardDb b key h.ready.valid1 db
          × (try_l1 (some b) key now
              ≡ done (some b', read_value (badger.read (now / 10 ^ 9) key db)))
          × IsL1 b'
          × (b'.closed ≡ false)
          × (b'.shards ≡ b.shards)
          × (b'.shard_count ≡ b.shard_count)
          × (((e : GoError) × (e ≢ nil) × (badger.read (now / 10 ^ 9) key db ≡ failed e))
              ⊎ (badger.read (now / 10 ^ 9) key db ≡ read_of (now / 10 ^ 9) (l1_entry b key)))
    unfolding try_l1
    try_l1-reads now =
        let (b', db, held, got, valid, still, reads, _, shards, count) =
          get_done b key h.ready.valid1 h.ready.open1 k now in
        let r = badger.read (now / 10 ^ 9) key db in
        (
          b',
          db,
          held,
          rw got (ap (λ o. done (some b', o)) (value_of-read_result r)),
          valid,
          still,
          shards,
          count,
          reads,
        )

    l2_result-first_found : (o : Option Bytes) → l2_result o ≡ first_found none none o
    unfolding l2_result
    l2_result-first_found none = refl
    l2_result-first_found (some v) = refl

    after_l1-first_found :
        (d : TieredCache badger) (o : Option Bytes)
        → (after_l1 d key o).1 ≡ first_found none o (try_l2 d.l2 key)
    unfolding after_l1
    after_l1-first_found d none = l2_result-first_found (try_l2 d.l2 key)
    after_l1-first_found d (some v) = refl

    -- The promotions after a `Get`: one more, of a value that is in L1 only.
    abbrev pub promotions_after : Option Bytes → Option Bytes → List (Bytes × Bytes)
    promotions_after (some v) _ = c.promotions
    promotions_after none none = c.promotions
    promotions_after none (some v) = (key, v) ∷ c.promotions

    -- After a `Get` that has found these values in L0 and in L1.
    pub record Got (c' : TieredCache badger) (o0 o1 : Option Bytes) : Type 0 where
      pub l0_after : Cache
      pub l1_after : L1Cache badger
      pub serving : IsServing c' l0_after l1_after
      pub limit : l0_after.max_payload ≡ a.max_payload
      pub shards : l1_after.shards ≡ b.shards
      pub shard_count : l1_after.shard_count ≡ b.shard_count
      pub promoted : c'.promotions ≡ promotions_after o0 o1

    after_l1-Got :
        (a' : Cache) (b' : L1Cache badger) (o : Option Bytes)
        → IsReady a' b'
        → a'.max_payload ≡ a.max_payload
        → b'.shards ≡ b.shards
        → b'.shard_count ≡ b.shard_count
        → Got
            (after_l1
              (record c { l0 = some a'; l1 = some b'; initialized = true; closed = false })
              key
              o).0
            none
            o
    unfolding after_l1
    after_l1-Got a' b' none ready limit shards count = record {
      l0_after = a';
      l1_after = b';
      serving = record {
        has_l0 = refl;
        has_l1 = refl;
        started = refl;
        not_closed = refl;
        ready = ready;
      };
      limit = limit;
      shards = shards;
      shard_count = count;
      promoted = refl;
    }
    after_l1-Got a' b' (some v) ready limit shards count = record {
      l0_after = a';
      l1_after = b';
      serving = record {
        has_l0 = refl;
        has_l1 = refl;
        started = refl;
        not_closed = refl;
        ready = ready;
      };
      limit = limit;
      shards = shards;
      shard_count = count;
      promoted = refl;
    }

    pub tiered_get-first :
        (now : ℕ)
        → length key ≤ a.max_payload
        → (c' : TieredCache badger) × (db : badger.Db) × IsShardDb b key h.ready.valid1 db
          × (tiered_get c key now
              ≡ done (
                c',
                first_found
                    (visible a now key)
                    (read_value (badger.read (now / 10 ^ 9) key db))
                    (try_l2 c.l2 key),
              ))
          × (((e : GoError) × (e ≢ nil) × (badger.read (now / 10 ^ 9) key db ≡ failed e))
              ⊎ (badger.read (now / 10 ^ 9) key db ≡ read_of (now / 10 ^ 9) (l1_entry b key)))
          × Got c' (visible a now key) (read_value (badger.read (now / 10 ^ 9) key db))
    unfolding tiered_get after_l0
    tiered_get-first now fits =
        let (a', got0, valid0, open0, limit) = try_l0-visible now fits in
        let (b', db, held, got1, valid1, open1, shards, count, reads) = try_l1-reads now in
        let o = read_value (badger.read (now / 10 ^ 9) key db) in
        elim (Option-cases (visible a now key)) [
          | inr (v, shown) ↦ (
            record c { l0 = some a' },
            db,
            held,
            rw shown (simp (h.started, h.not_closed, h.has_l0, rw shown at got0) refl),
            reads,
            record {
              l0_after = a';
              l1_after = b;
              serving = record {
                has_l0 = refl;
                has_l1 = h.has_l1;
                started = h.started;
                not_closed = h.not_closed;
                ready = record {
                  valid0 = valid0;
                  open0 = open0;
                  valid1 = h.ready.valid1;
                  open1 = h.ready.open1;
                };
              };
              limit = limit;
              shards = refl;
              shard_count = refl;
              promoted = rw shown refl;
            },
          )
          | inl hidden ↦
              let d : TieredCache badger = record c {
                l0 = some a';
                l1 = some b';
                initialized = true;
                closed = false;
              } in
              (
                (after_l1 d key o).0,
                db,
                held,
                rw hidden (
                    simp (h.started, h.not_closed, h.has_l0, rw hidden at got0, h.has_l1, got1)
                      (ap (λ r. done ((after_l1 d key o).0, r)) (after_l1-first_found d o))),
                reads,
                rw hidden (
                    after_l1-Got a' b' o
                      (record { valid0 = valid0; open0 = open0; valid1 = valid1; open1 = open1 })
                      limit shards count),
              )
        ]

    -- A promotion that waits, of a value that L0 can take, makes L0 show the value at every later
    -- time: the time to live that L1 has for it is not kept, and what happened to the key since
    -- `Get` read it, a `Delete` say, is not looked at.
    pub run_promotion-visible :
        (v : Bytes) (rest : List (Bytes × Bytes)) (now : ℕ)
        → is_empty v ≡ false
        → length v ≤ a.max_payload
        → (c' : TieredCache badger) × (a' : Cache) × (run_promotion c ((key, v) ∷ rest) now
            ≡ done c')
          × IsServing c' a' b
          × (a'.max_payload ≡ a.max_payload)
          × ((later : ℕ) → visible a' later key ≡ some v)
    unfolding run_promotion set_l0 new_cache_entry
    run_promotion-visible v rest now full fits =
        let (a', ran, valid, config, stored, _) =
          set_value-Stores a key h.ready.valid0 h.ready.open0 v (pos 0) now k full fits in
        (
          record c { l0 = some a'; promotions = rest },
          a',
          simp (h.has_l0, ran) refl,
          record {
            has_l0 = refl;
            has_l1 = h.has_l1;
            started = h.started;
            not_closed = h.not_closed;
            ready = record {
              valid0 = valid;
              open0 = config.closed ∙ h.ready.open0;
              valid1 = h.ready.valid1;
              open1 = h.ready.open1;
            };
          },
          config.max_payload,
          λ later. ap (unexpired later) stored,
        )
