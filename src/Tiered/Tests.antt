-- ===== src/Tiered/Tests.antt =====
-- pkg/tieredcache/tieredcache.go: the theorems at a concrete cache.
use tieredcache.Base.{
  fnv32a, lookup, bytes_eq, Bytes, ◌≡◌, ◌≢◌, refl, true, false, str, done, Returns, none, some,
  arith, pos, List, [], ◌∷◌, ok, Bool,
}
use tieredcache.Common.Errors.{GoError, nil, code, not_found}
use tieredcache.Common.Entry.{CacheEntry}
use tieredcache.L0.State.{Cache}
use tieredcache.L0.Sample.{cache_a, cache_a-IsCache}
use tieredcache.L0.Queries.{evict_candidates}
use tieredcache.L0.Ops.Place.{entry_at}
use tieredcache.L1.State.{L1Cache}
use tieredcache.L1.Reads.{l1_entry}
use tieredcache.L1.Sample.{badger_a, l1_a, l1_a-IsL1}
use tieredcache.Replay.Sample.{codec_a, manager_of, moment}
use tieredcache.L1.Reads.{IsShardDb, Changes}
use tieredcache.L1.State.{l1_shard_index}
use tieredcache.L0.Ops.{shard_index}
use tieredcache.L0.Queries.{collect, collect_shards}
use tieredcache.Tiered.Moved.{Distinct}
use tieredcache.Tiered.State.{
  TieredCache, tiered_get, tiered_set, tiered_delete, run_promotion, last_error,
}
use tieredcache.Tiered.Tiering.{perform_tiering}
use tieredcache.Tiered.Moved.{IsReady, Moves, perform_tiering-Moves}
use tieredcache.Tiered.Calls.{IsServing}
use tieredcache.Tiered.Updates.{
  tiered_get-tiered_set, tiered_delete-Deletes, tiered_delete-promoted,
}

-- Both tiers, and a promotion of the key "k" that waits.
abbrev tiered_a : TieredCache badger_a
tiered_a = record {
  l0 = some cache_a;
  l1 = some l1_a;
  l2 = none;
  recovery = some (manager_of [] 0);
  max_payload_bytes = 3;
  initialized = true;
  closed = false;
  promotions = (str "k", str "old") ∷ [];
}

tiers_a-IsReady : IsReady cache_a l1_a
tiers_a-IsReady = record {
  valid0 = cache_a-IsCache;
  open0 = refl;
  valid1 = l1_a-IsL1;
  open1 = refl;
}

tiered_a-IsServing : IsServing tiered_a cache_a l1_a
tiered_a-IsServing = record {
  has_l0 = refl;
  has_l1 = refl;
  started = refl;
  not_closed = refl;
  ready = tiers_a-IsReady;
}

tiered_get-tiered_set_example :
    (c1 c2 : TieredCache badger_a) × (tiered_set codec_a moment none tiered_a
        (str "k")
        (str "new")
        (pos 50)
        300
      ≡ done (c1, nil))
    × (tiered_get c1 (str "k") 320 ≡ done (c2, ok (str "new")))
tiered_get-tiered_set_example =
    tiered_get-tiered_set codec_a moment none tiered_a cache_a l1_a (str "k") tiered_a-IsServing
      refl (str "new") (pos 50) 300 320 refl (omega arith) (omega arith) (omega arith) refl

tiered_delete-Deletes_example :
    (c1 : TieredCache badger_a) × (a1 : Cache) × (b1 : L1Cache badger_a) × (db : badger_a.Db)
    × IsShardDb l1_a (str "k") l1_a-IsL1 db
    × (tiered_delete codec_a moment none tiered_a (str "k")
        ≡ done (
          c1,
          last_error
              (elim (entry_at cache_a (str "k")) [ none ↦ code not_found | some _ ↦ nil ])
              (badger_a.delete_entry (str "k") db).0,
        ))
    × IsServing c1 a1 b1
    × (a1.max_payload ≡ cache_a.max_payload)
    × (entry_at a1 (str "k") ≡ none)
    × ((q : Bytes) → q ≢ str "k" → entry_at a1 q ≡ entry_at cache_a q)
    × Changes l1_a (str "k") l1_a-IsL1 none b1 (badger_a.delete_entry (str "k") db).0
    × (c1.promotions ≡ tiered_a.promotions)
tiered_delete-Deletes_example =
    tiered_delete-Deletes codec_a moment none tiered_a cache_a l1_a (str "k") tiered_a-IsServing
      refl

in_shard : IsShardDb l1_a (str "k") l1_a-IsL1 ((str "k", (str "old", 0)) ∷ [])
unfolding l1_shard_index fnv32a
in_shard = refl

tiered_delete-promoted_example :
    (c0 c1 c2 c3 : TieredCache badger_a) × (err : GoError) × (a1 : Cache) × (b1 : L1Cache badger_a)
    × (tiered_get tiered_a (str "k") 300 ≡ done (c0, ok (str "old")))
    × (tiered_delete codec_a moment none c0 (str "k") ≡ done (c1, err))
    × IsServing c1 a1 b1
    × (entry_at a1 (str "k") ≡ none)
    × (l1_entry b1 (str "k") ≡ none)
    × (run_promotion c1 c1.promotions 310 ≡ done c2)
    × (tiered_get c2 (str "k") 999 ≡ done (c3, ok (str "old")))
unfolding entry_at lookup bytes_eq shard_index
tiered_delete-promoted_example =
    tiered_delete-promoted codec_a moment none tiered_a cache_a l1_a (str "k") tiered_a-IsServing
      refl (str "old") ((str "k", (str "old", 0)) ∷ []) 300 310 999 refl in_shard refl refl refl
      (omega arith) (omega arith)

never : Cache → Bool
never c = false

candidates_a : (es : List CacheEntry) × (evict_candidates cache_a 5 ≡ ok es) × Distinct es
unfolding evict_candidates collect_shards collect
candidates_a = (_, refl, (tt, tt))

perform_tiering-Moves_example :
    Returns
      (perform_tiering never 5 cache_a l1_a 300)
      (λ r. Moves 300 candidates_a.0 cache_a r.0 l1_a r.1)
perform_tiering-Moves_example =
    perform_tiering-Moves never 5 cache_a l1_a 300 candidates_a.0 tiers_a-IsReady candidates_a.1
      candidates_a.2
