-- ===== src/L1/Iterate.antt =====
-- pkg/l1/l1_badger.go: the iterator over the shards, `EvictCandidates` and `Stats`. What Badger's own
-- iterator goes through in a database, the keys with the answers of `ValueCopy`, is a parameter.
use tieredcache.Base.{
  ℕ, zero, suc, ◌-◌, Bool, true, false, List, [], ◌∷◌, ◌++◌, Option, none, some, Bytes, length,
  drop, take, leb, if◌then◌else◌, Result, ok, fail,
}
use tieredcache.Common.Errors.{GoError}
use tieredcache.L1.Badger.{Badger}
use tieredcache.L1.State.{L1Cache, l1_closed, disk_usage}

-- A key, and what `ValueCopy` gives for it.
abbrev pub Item : Type 0
Item = Bytes × Result GoError Bytes

-- `L1Iterator`: the shard's number, and Badger's iterator, by the items from its position on; it is
-- `none` before the first `Next`.
pub record L1Iterator : Type 0 where
  pub shard : ℕ
  pub rest : Option (List Item)
  pub valid : Bool

-- `NewIterator`
abbrev pub new_iterator : L1Iterator
new_iterator = record { shard = 0; rest = none; valid = false }

-- `Key` and `Value`
unfoldable pub current : L1Iterator → Option Item
current it =
    if it.valid
    then elim it.rest [ none ↦ none | some items ↦ elim items [ [] ↦ none | x ∷ _ ↦ some x ] ]
    else none

-- What a loop over the iterator has seen.
abbrev pub seen : Option Item → Option (List Item) → Option (List Item)
seen (some x) (some xs) = some (x ∷ xs)
seen _ _ = none

abbrev pub keys : List Item → List Bytes
keys [] = []
keys ((k, _) ∷ items) = k ∷ keys items

module _ (badger : Badger) (items_of : badger.Db → List Item) where
  -- `initShard` on the shards that are left, as many as the cache counts: the first that is not empty. `valid` is not cleared at the end.
  unfoldable pub init_shard : List badger.Db → L1Iterator → Bool × L1Iterator
  init_shard [] it = (false, it)
  init_shard (db ∷ dbs) it = elim (items_of db) as (λ _. Bool × L1Iterator) [
    | x ∷ items ↦ (true, record it { rest = some (x ∷ items); valid = true })
    | [] ↦ init_shard dbs (record it { rest = some []; shard = suc it.shard })
  ]

  -- The end of `Next`, on what Badger's iterator holds behind its position.
  abbrev pub moved : L1Cache badger → L1Iterator → List Item → Bool × L1Iterator
  moved c it [] =
      init_shard (drop (suc it.shard) c.shards) (record it { rest = some []; shard = suc it.shard })
  moved c it (x ∷ items) = (true, record it { rest = some (x ∷ items); valid = true })

  -- `Next`, as long as it has not returned false.
  unfoldable pub next : L1Cache badger → L1Iterator → Bool × L1Iterator
  next c it = elim it.rest [
    | none ↦ init_shard (drop it.shard c.shards) it
    | some items ↦ moved c it (drop 1 items)
  ]

  -- `for it.Next() { … it.Key(), it.Value() … }`: what the loop sees; `none` if the fuel runs out.
  unfoldable pub walk : ℕ → L1Cache badger → L1Iterator → Option (List Item)
  walk zero c it = none
  walk (suc fuel) c it =
      let (more, it') = next c it in
      let rest = walk fuel c it' in if more then seen (current it') rest else some []

  -- The items of all shards, in their order.
  abbrev pub all_items : List badger.Db → List Item
  all_items [] = []
  all_items (db ∷ dbs) = items_of db ++ all_items dbs

  -- The loops of `EvictCandidates`: the keys shard by shard until there are `count`.
  unfoldable pub candidates : ℕ → List badger.Db → List Bytes → List Bytes
  candidates count [] found = found
  candidates count (db ∷ dbs) found =
      let found' = found ++ take (count - length found) (keys (items_of db)) in
      let rest = candidates count dbs found' in if leb count (length found') then found' else rest

  -- `EvictCandidates`, when every shard can be read.
  unfoldable pub l1_evict_candidates : L1Cache badger → ℕ → Result GoError (List Bytes)
  l1_evict_candidates c count =
      if c.closed then fail l1_closed else ok (candidates count c.shards [])

-- `Stats`; no call changes the weight of a shard, which is 0.
pub record L1Stats : Type 0 where
  pub reads : ℕ
  pub writes : ℕ
  pub deletes : ℕ
  pub hits : ℕ
  pub misses : ℕ
  pub disk_usage : ℕ
  pub weight : ℕ

unfoldable pub l1_stats : {badger : Badger} → L1Cache badger → Result GoError L1Stats
l1_stats c =
    if c.closed
    then fail l1_closed
    else ok (record {
      reads = c.reads;
      writes = c.writes;
      deletes = c.deletes;
      hits = c.hits;
      misses = c.misses;
      disk_usage = disk_usage c;
      weight = 0;
    })
