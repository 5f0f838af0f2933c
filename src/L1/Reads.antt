-- ===== src/L1/Reads.antt =====
-- pkg/l1/l1_badger.go: what can be read after each operation, by the contents of the databases.
use tieredcache.Base.{
  ℕ, ◌/◌, ◌^◌, ◌≡◌, ◌≢◌, ◌<◌, ◌%◌, fnv32a, refl, false, List, Option, none, some, Bytes, leb, ◌==◌,
  is_empty, if◌then◌else◌, add64, get_elem?, length, done, Result, ok, fail, ℤ, bytes_eq,
  bytes_eq_iff, ==_iff, arith, Bool-cases, inl, inr, ◌⊎◌, get_elem?-some, get_elem?-set_self,
  get_elem?-set_ne, length-set, ap, sym, ◌∙◌,
}
use tieredcache.Common.Errors.{GoError, nil}
use tieredcache.L1.Badger.{Badger, Read, found, absent, failed, read_of}
use tieredcache.L1.State.{
  L1Cache, l1_not_found, l1_shard_index, l1_get_shard, l1_put_shard, disk_usage, l1_got, l1_get,
  expires_at, l1_set, l1_delete,
}

pub nil_or_error : (e : GoError) → (e ≡ nil) ⊎ (e ≢ nil)
nil_or_error nil = inl refl
nil_or_error _ = inr (λ q. cc)

abbrev entry_in : (badger : Badger) → List badger.Db → ℕ → Bytes → Option (Bytes × ℕ)
entry_in badger dbs i q = elim (get_elem? dbs i) [ none ↦ none | some db ↦ badger.contents db q ]

module _ {badger : Badger} where
  -- What the database of the key's shard holds for the key, with its expiry.
  unfoldable pub l1_entry : L1Cache badger → Bytes → Option (Bytes × ℕ)
  l1_entry c q = elim (get_elem? c.shards (l1_shard_index c q)) [
    | none ↦ none
    | some db ↦ badger.contents db q
  ]

  -- There is a database for each shard number, and one at least.
  pub record IsL1 (c : L1Cache badger) : Type 0 where
    pub sharded : length c.shards ≡ c.shard_count
    pub some_shard : 0 < c.shard_count

  module _ (c : L1Cache badger) (key : Bytes) (h : IsL1 c) where
    index_bound : l1_shard_index c key < length c.shards
    unfolding l1_shard_index
    index_bound = omega (arith, h.sharded, h.some_shard)

    pub record Located : Type 0 where
      pub db : badger.Db
      pub found : l1_get_shard c key ≡ done db
      pub held : get_elem? c.shards (l1_shard_index c key) ≡ some db
      pub entry : l1_entry c key ≡ badger.contents db key

    pub locate : Located
    unfolding l1_get_shard l1_entry
    locate =
        let (db, at_i) = get_elem?-some c.shards (l1_shard_index c key) index_bound in
        record {
          db = db;
          found = elim (Bool-cases (c.shard_count == 0)) [
            | inl none_there ↦ absurd (ground (arith, h.some_shard))
            | inr e ↦ rw (e, at_i, l1_get_shard)
          ];
          held = at_i;
          entry = rw (at_i, l1_entry);
        }

    -- Another key lies in the same shard, or its entry stays.
    put_shard-entry :
        (db db' : badger.Db) (q : Bytes)
        → get_elem? c.shards (l1_shard_index c key) ≡ some db
        → ((l1_entry (l1_put_shard c key db') q ≡ badger.contents db' q)
            × (l1_entry c q ≡ badger.contents db q))
          ⊎ ((l1_entry (l1_put_shard c key db') q ≡ l1_entry c q) × (bytes_eq key q ≡ false))
    unfolding l1_entry l1_put_shard l1_shard_index
    put_shard-entry db db' q held = elim (Bool-cases (l1_shard_index c key == l1_shard_index c q)) [
      | inl e ↦
          let same : l1_shard_index c q ≡ l1_shard_index c key = sym ((==_iff _ _).0 e) in
          inl (
            rw (same, get_elem?-set_self c.shards (l1_shard_index c key) db' index_bound, l1_entry),
            rw (same, held, l1_entry),
          )
      | inr ne ↦ inr (
        rw (
          get_elem?-set_ne c.shards (l1_shard_index c key) (l1_shard_index c q) db'
              (λ p. ground arith),
          l1_entry,
        ),
        elim (Bool-cases (bytes_eq key q)) [
          | inl e ↦
              let e' = ap (λ x. l1_shard_index c x) ((bytes_eq_iff key q).0 e) in
              absurd (ground (arith, e'))
          | inr other ↦ other
        ],
      )
    ]

    -- The shard's new contents show in the cache.
    put_shard-changed :
        (at : Located) (db' : badger.Db) (x : Option (Bytes × ℕ))
        → ((q : Bytes)
            → badger.contents db' q ≡ (if bytes_eq key q then x else badger.contents at.db q))
        → (q : Bytes)
        → l1_entry (l1_put_shard c key db') q ≡ (if bytes_eq key q then x else l1_entry c q)
    put_shard-changed at db' x change q = elim (put_shard-entry at.db db' q at.held) [
      | inl (new, old) ↦ rw (new, change q, old) refl
      | inr (same, other) ↦ rw (other, same) refl
    ]

    put_shard-kept :
        (at : Located) (db' : badger.Db)
        → ((q : Bytes) → badger.contents db' q ≡ badger.contents at.db q)
        → (q : Bytes) → l1_entry (l1_put_shard c key db') q ≡ l1_entry c q
    put_shard-kept at db' keeps q = elim (put_shard-entry at.db db' q at.held) [
      | inl (new, old) ↦ new ∙ keeps q ∙ sym old
      | inr (same, other) ↦ same
    ]

    -- After a write for the key that returns `err`: with no error the key has `x` and any other
    -- key what it had, and else nothing has changed.
    abbrev pub Changes : Option (Bytes × ℕ) → L1Cache badger → GoError → Type 0
    Changes x c' err =
        ((err ≡ nil) × ((q : Bytes) → l1_entry c' q ≡ (if bytes_eq key q then x else l1_entry c q)))
        ⊎ ((err ≢ nil) × ((q : Bytes) → l1_entry c' q ≡ l1_entry c q))

    l1_entry-same :
        (a b : L1Cache badger) (q : Bytes)
        → a.shards ≡ b.shards
        → a.shard_count ≡ b.shard_count
        → l1_entry a q ≡ l1_entry b q
    unfolding l1_entry l1_shard_index
    l1_entry-same a b q shards count =
        ap (λ s. entry_in badger s (fnv32a q % a.shard_count) q) shards
        ∙ ap (λ n. entry_in badger b.shards (fnv32a q % n) q) count

    put_shard-IsL1 :
        (db : badger.Db) (c' : L1Cache badger)
        → c'.shards ≡ (l1_put_shard c key db).shards
        → c'.shard_count ≡ (l1_put_shard c key db).shard_count
        → IsL1 c'
    unfolding l1_put_shard
    put_shard-IsL1 db c' shards count = record {
      sharded =
          ap length shards ∙ length-set c.shards (l1_shard_index c key) db ∙ h.sharded ∙ sym count;
      some_shard = omega (arith, h.some_shard, count);
    }

    -- A transaction on the key's shard.
    write-Changes :
        (at : Located) (x : Option (Bytes × ℕ)) (db' : badger.Db) (c' : L1Cache badger)
        (err : GoError)
        → c'.shards ≡ (l1_put_shard c key db').shards
        → c'.shard_count ≡ (l1_put_shard c key db').shard_count
        → (err ≡ nil
            → (q : Bytes)
            → badger.contents db' q ≡ (if bytes_eq key q then x else badger.contents at.db q))
        → (err ≢ nil → (q : Bytes) → badger.contents db' q ≡ badger.contents at.db q)
        → IsL1 c' × Changes x c' err
    write-Changes at x db' c' err shards count committed aborted = (
      put_shard-IsL1 db' c' shards count,
      elim (nil_or_error err) [
        | inl good ↦ inl (
          good,
          λ q.
              l1_entry-same c' (l1_put_shard c key db') q shards count
              ∙ put_shard-changed at db' x (committed good) q,
        )
        | inr bad ↦ inr (
          bad,
          λ q.
              l1_entry-same c' (l1_put_shard c key db') q shards count
              ∙ put_shard-kept at db' (aborted bad) q,
        )
      ],
    )

    -- The database of the key's shard.
    abbrev pub IsShardDb : badger.Db → Type 0
    IsShardDb db = get_elem? c.shards (l1_shard_index c key) ≡ some db

    -- `Set` on an open cache that is not at capacity, of a key and a value that are not empty, returns
    -- what the transaction on the database of the key's shard answers. If that is nil, the key has the
    -- value with its expiry and every other key what it had; if it is an error, nothing has changed.
    pub l1_set-Changes :
        (value : Bytes) (ttl : ℤ) (now : ℕ)
        → c.closed ≡ false
        → is_empty key ≡ false
        → is_empty value ≡ false
        → disk_usage c < c.max_capacity
        → (c' : L1Cache badger) × (db : badger.Db) × IsShardDb db
          × (l1_set c key value ttl now
              ≡ done (c', (badger.set_entry key value (expires_at ttl now) db).0))
          × IsL1 c'
          × Changes
              (some (value, expires_at ttl now))
              c'
              (badger.set_entry key value (expires_at ttl now) db).0
    unfolding l1_set
    l1_set-Changes value ttl now is_open k v room =
        let at = locate in
        let full : leb c.max_capacity (disk_usage c) ≡ false = ground (arith, room) in
        let out = badger.set_entry key value (expires_at ttl now) at.db in
        let c' : L1Cache badger = record (l1_put_shard c key out.1) { writes = add64 c.writes 1 } in
        let (valid, changes) =
          write-Changes at (some (value, expires_at ttl now)) out.1 c' out.0 refl refl
            (λ good q. badger.set_entry-committed key value (expires_at ttl now) at.db q good)
            (λ bad q. badger.set_entry-failed key value (expires_at ttl now) at.db q bad) in
        (c', at.db, at.held, simp (is_open, k, v, full, at.found) refl, valid, changes)

    -- `Delete` on an open cache of a key that is not empty returns what the transaction on the
    -- database of the key's shard answers. If that is nil, also where the key was not there, the key has no value and every
    -- other key what it had; if it is an error, nothing has changed.
    pub l1_delete-Changes :
        c.closed ≡ false
        → is_empty key ≡ false
        → (c' : L1Cache badger) × (db : badger.Db) × IsShardDb db
          × (l1_delete c key ≡ done (c', (badger.delete_entry key db).0))
          × IsL1 c'
          × Changes none c' (badger.delete_entry key db).0
    unfolding l1_delete
    l1_delete-Changes is_open k =
        let at = locate in
        let out = badger.delete_entry key at.db in
        let c' : L1Cache badger = record (l1_put_shard c key out.1) {
          deletes = add64 c.deletes 1;
        } in
        let (valid, changes) =
          write-Changes at none out.1 c' out.0 refl refl
            (λ good q. badger.delete_entry-committed key at.db q good)
            (λ bad q. badger.delete_entry-failed key at.db q bad) in
        (c', at.db, at.held, simp (is_open, k, at.found) refl, valid, changes)

    -- What `Get` returns for what is read.
    abbrev pub read_result : Read → Result GoError Bytes
    read_result (found v) = ok v
    read_result absent = fail l1_not_found
    read_result (failed e) = fail e

    got-shards :
        (r : Read)
        → ((l1_got c r).0.shards ≡ c.shards)
          × ((l1_got c r).0.shard_count ≡ c.shard_count)
          × ((l1_got c r).1 ≡ read_result r)
    unfolding l1_got
    got-shards (found v) = (refl, refl, refl)
    got-shards absent = (refl, refl, refl)
    got-shards (failed e) = (refl, refl, refl)

    -- `Get` on an open cache, of a key that is not empty, returns the value that the key has, if it
    -- has one that is not expired, else an error; or it fails as the database failed. It changes
    -- no value.
    pub l1_get-reads :
        (now : ℕ)
        → c.closed ≡ false
        → is_empty key ≡ false
        → (c' : L1Cache badger) × (db : badger.Db) × IsShardDb db
          × (l1_get c key now ≡ done (c', read_result (badger.read (now / 10 ^ 9) key db)))
          × (((e : GoError) × (e ≢ nil) × (badger.read (now / 10 ^ 9) key db ≡ failed e))
              ⊎ (badger.read (now / 10 ^ 9) key db ≡ read_of (now / 10 ^ 9) (l1_entry c key)))
          × ((q : Bytes) → l1_entry c' q ≡ l1_entry c q)
    unfolding l1_get
    l1_get-reads now is_open k =
        let at = locate in
        let r = badger.read (now / 10 ^ 9) key at.db in
        let (shards, count, result) = got-shards r in
        (
          (l1_got c r).0,
          at.db,
          at.held,
          simp (is_open, k, at.found) (ap (λ x. done ((l1_got c r).0, x)) result),
          rw at.entry (badger.read-contents (now / 10 ^ 9) key at.db),
          λ q. l1_entry-same (l1_got c r).0 c q shards count,
        )
