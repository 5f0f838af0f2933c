-- ===== src/L0/Tests.antt =====
-- Runs of the in-memory cache on small inputs, and instances of its theorems.
use tieredcache.Base.{
  ◌<◌, ◌≡◌, ◌≢◌, refl, true, false, List, [], ◌∷◌, none, some, Bytes, str, if◌then◌else◌, arith,
  done, ◌⊎◌, Returns, pos, ok, fail, lookup, insert, bytes_eq, remove, fnv32a, decimal,
}
use tieredcache.Common.Errors.{nil, code, not_found}
use tieredcache.Common.Entry.{CacheEntry, new_cache_entry, is_expired_at}
use tieredcache.L0.State.{Shard, Cache, Config, empty_slot}
use tieredcache.L0.Shard.{IsCache}
use tieredcache.L0.Sample.{entry_a, shard_a, shard_a-IsShard, cache_a, cache_a-IsCache}
use tieredcache.L0.Clock.{evict_one, add_to_clock, clear_slot}
use tieredcache.L0.Ops.{
  get, get_found, set_value, set_in_shard, make_room, store, delete, delete_found, demote,
  demote_found, get_or_set, got_or_set, get_shard, put_shard, shard_index, shard_memory_limit,
}
use tieredcache.L0.Ops.Place.{entry_at}
use tieredcache.L0.Ops.Written.{SameConfig}
use tieredcache.L0.Ops.Writes.{set_value-Stores, delete-Deletes}
use tieredcache.L0.Ops.Reads.{visible, get_result, Reads, get-visible}
use tieredcache.L0.Ops.Total.{Call, after_all, after_all-IsCache}
use tieredcache.L0.Ops.Together.{get-set_value, get_or_set-visible}
use tieredcache.L0.Limits.{set_in_shard-overshoots}

program : Unit {0}
unfolding bytes_eq lookup insert remove fnv32a decimal new_cache_entry evict_one add_to_clock
    clear_slot get get_found set_value set_in_shard make_room store delete delete_found demote
    demote_found get_or_set got_or_set get_shard put_shard shard_index shard_memory_limit entry_at
program = tt

-- The second call of `evictOne` finds the bit cleared and evicts.
two_calls :
    (s : Shard) × (t : Shard) × (evict_one shard_a ≡ done (s, false))
    × (evict_one s ≡ done (t, true))
    × (t.entries ≡ [])
    × (t.freq_size ≡ 0)
unfolding program
two_calls = (
  record shard_a {
    frequency =
        record { key = str "a"; reference = false; weight = 1 } ∷ empty_slot ∷ empty_slot ∷ [];
  },
  record shard_a {
    entries = [];
    frequency = empty_slot ∷ empty_slot ∷ empty_slot ∷ [];
    freq_size = 0;
    clock_hand = 1;
    used_memory = 0;
    weight = 0;
    evicts = 1;
  },
  refl,
  refl,
  refl,
  refl,
)

set_value-Stores_example :
    (c' : Cache) × (set_value cache_a (str "b") (1 ∷ []) (pos 0) 200 ≡ done (c', nil))
    × IsCache c'
    × SameConfig cache_a c'
    × (entry_at c' (str "b") ≡ some (new_cache_entry (str "b") (1 ∷ []) (pos 0) 200))
    × ((q : Bytes) → q ≢ str "b" → (entry_at c' q ≡ entry_at cache_a q) ⊎ (entry_at c' q ≡ none))
set_value-Stores_example =
    set_value-Stores cache_a (str "b") cache_a-IsCache refl (1 ∷ []) (pos 0) 200 refl refl
      (omega arith)

get-visible_example :
    (c' : Cache) × (get cache_a (str "a") 120
      ≡ done (c', get_result (visible cache_a 120 (str "a"))))
    × Reads cache_a c'
get-visible_example = get-visible cache_a (str "a") 120 cache_a-IsCache refl refl (omega arith)

-- The value is shown until its TTL has run out.
visible_until :
    (visible cache_a 150 (str "a") ≡ some (7 ∷ 8 ∷ [])) × (visible cache_a 151 (str "a") ≡ none)
unfolding program
visible_until = (refl, refl)

delete-Deletes_example :
    (c' : Cache) × (delete cache_a (str "a")
      ≡ done (c', elim (entry_at cache_a (str "a")) [ none ↦ code not_found | some _ ↦ nil ]))
    × IsCache c'
    × SameConfig cache_a c'
    × (entry_at c' (str "a") ≡ none)
    × ((q : Bytes) → q ≢ str "a" → entry_at c' q ≡ entry_at cache_a q)
delete-Deletes_example = delete-Deletes cache_a (str "a") cache_a-IsCache refl refl

abbrev small : Config
small = record {
  max_memory_mb = 1;
  max_payload_bytes = 32;
  weighted_unit = 0;
  shard_count = 2;
  snapshot_path = [];
  snapshot_int = pos 0;
  enable_snapshot = false;
}

abbrev calls : List Call
calls =
    Call.set_call (str "b") (1 ∷ []) (pos 0) 200
    ∷ Call.get_call (str "b") 300
    ∷ Call.get_or_set_call (str "c") (2 ∷ []) (pos 9) 300
    ∷ Call.demote_call (str "b")
    ∷ Call.delete_call (str "a")
    ∷ []

after_all-IsCache_example : Returns (after_all calls cache_a) IsCache
after_all-IsCache_example = after_all-IsCache calls cache_a cache_a-IsCache

get-set_value_example :
    (c' c'' : Cache) × (set_value cache_a (str "b") (1 ∷ []) (pos 9) 200 ≡ done (c', nil))
    × (get c' (str "b") 205
        ≡ done (c'', if is_expired_at (pos 9) 200 205 then fail (code not_found) else ok (1 ∷ [])))
get-set_value_example =
    get-set_value cache_a (str "b") (1 ∷ []) (pos 9) 200 cache_a-IsCache refl refl refl
      (omega arith) 205 (omega arith)

get_or_set-visible_example :
    (c' : Cache) × (get_or_set cache_a (str "a") (1 ∷ []) (pos 9) 120
      ≡ done (
        c',
        elim (visible cache_a 120 (str "a")) [
          | some old ↦ ok (old, false)
          | none ↦ ok (1 ∷ [], true)
        ],
      ))
    × ((old : Bytes) → visible cache_a 120 (str "a") ≡ some old → Reads cache_a c')
    × (visible cache_a 120 (str "a") ≡ none
        → (entry_at c' (str "a") ≡ some (new_cache_entry (str "a") (1 ∷ []) (pos 9) 120))
          × IsCache c')
get_or_set-visible_example =
    get_or_set-visible cache_a (str "a") (1 ∷ []) (pos 9) 120 cache_a-IsCache refl refl refl
      (omega arith) (omega arith)

abbrev entry_b : CacheEntry
entry_b = record entry_a { key = str "b"; value = 1 ∷ 2 ∷ 3 ∷ []; size = 3 }

set_in_shard-overshoots_example :
    Returns
      (set_in_shard 4 (str "b") entry_b shard_a)
      (λ s'. (s'.entries ≡ insert (str "b") entry_b shard_a.entries) × (4 < s'.used_memory))
unfolding lookup bytes_eq
set_in_shard-overshoots_example =
    set_in_shard-overshoots 4 (str "b") entry_b shard_a shard_a-IsShard refl refl (omega arith)
      (omega arith) (omega arith) (omega arith)
