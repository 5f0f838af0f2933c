-- ===== src/L1/OpenTests.antt =====
-- pkg/l1/l1_badger.go: `New`, the iterator, `EvictCandidates` and `Stats` at concrete caches.
use tieredcache.Base.{
  ◌≡◌, refl, List, [], ◌∷◌, none, some, str, ok, fail, negsuc, false, true, length, suc, float_leb,
  bytes_eq,
}
use tieredcache.Config.{L1Config}
use tieredcache.Config.Default.{default_l1}
use tieredcache.L1.State.{L1Cache, l1_closed}
use tieredcache.L1.Sample.{badger_a, l1_a, system_a}
use tieredcache.L1.Open.{Options, options_of, open_shard, open_shards, made, built, l1_new}
use tieredcache.L1.Opened.{IsNew, l1_new-IsNew}
use tieredcache.L1.Iterate.{
  Item, new_iterator, walk, all_items, candidates, l1_evict_candidates, l1_stats,
}
use tieredcache.L1.Walked.{walk-all_items}

-- Two shards.
abbrev small_l1 : L1Config
small_l1 = record (default_l1 8) { shard_count = 2 }

abbrev made_l1 : L1Cache badger_a
made_l1 = built system_a small_l1 ([] ∷ [] ∷ [])

l1_new-IsNew_example : IsNew system_a small_l1 made_l1
unfolding l1_new open_shards open_shard made default_l1 float_leb
l1_new-IsNew_example = l1_new-IsNew system_a small_l1 made_l1 refl

-- The keys of a database in the order of its list, each with its value.
abbrev items_a : badger_a.Db → List Item
items_a [] = []
items_a ((k, (v, x)) ∷ db) = (k, ok v) ∷ items_a db

walk-all_items_example :
    walk badger_a items_a (suc (length (all_items badger_a items_a l1_a.shards))) l1_a new_iterator
    ≡ some (all_items badger_a items_a l1_a.shards)
walk-all_items_example = walk-all_items badger_a items_a l1_a

both_items :
    all_items badger_a items_a l1_a.shards
    ≡ (str "k", ok (str "old")) ∷ (str "k", ok (str "old")) ∷ []
both_items = refl

one_candidate : l1_evict_candidates badger_a items_a l1_a 1 ≡ ok (str "k" ∷ [])
unfolding l1_evict_candidates candidates
one_candidate = refl

-- A negative count of goroutines is not passed on; a sync mode of "disabled" keeps a shard in memory.
options_disabled :
    (o : Options) × (options_of
        (record (default_l1 8) { num_goroutines = negsuc 0 })
        (str "disabled")
        3
      ≡ o)
    × (o.in_memory ≡ true)
    × (o.sync_writes ≡ false)
    × (o.num_goroutines ≡ none)
unfolding options_of bytes_eq default_l1
options_disabled = (_, refl, refl, refl, refl)

closed_stats : l1_stats (record l1_a { closed = true }) ≡ fail l1_closed
unfolding l1_stats
closed_stats = refl
