-- ===== src/L0/Candidates.antt =====
-- pkg/l0/l0_cache.go: what `EvictCandidates` returns.
use tieredcache.Base.{
  ℕ, ◌≡◌, refl, Bool, true, false, List, [], ◌∷◌, ◌++◌, Bytes, All, All-append, is_empty,
  if◌then◌else◌, leb, ok, length, ap, ◌∙◌,
}
use tieredcache.Common.Entry.{CacheEntry}
use tieredcache.L0.State.{Cache, Shard}
use tieredcache.L0.Shard.{IsStored, IsShard, IsCache}
use tieredcache.L0.Queries.{collect, collect_shards, evict_candidates}

-- The entry has a key that is not empty.
abbrev pub IsKeyed : CacheEntry → Type 0
IsKeyed e = is_empty e.key ≡ false

All-if :
    (b : Bool) (x y : List CacheEntry)
    → All IsKeyed x
    → All IsKeyed y
    → All IsKeyed (if b then x else y)
All-if true x y hx hy = hx
All-if false x y hx hy = hy

collect-IsKeyed :
    (count : ℕ) (m : List (Bytes × CacheEntry)) (found : List CacheEntry)
    → All IsStored m
    → All IsKeyed found
    → All IsKeyed (collect count m found)
unfolding collect
collect-IsKeyed count [] found h k = k
collect-IsKeyed count ((q, e) ∷ m) found h k =
    All-if (leb count (length found)) found (collect count m (found ++ e ∷ [])) k (
      collect-IsKeyed count m (found ++ e ∷ []) h.1
        (All-append IsKeyed found (e ∷ []) k (ap is_empty h.0.own_key ∙ h.0.keyed, tt)))

collect_shards-IsKeyed :
    (count : ℕ) (shards : List Shard) (found : List CacheEntry)
    → All IsShard shards
    → All IsKeyed found
    → All IsKeyed (collect_shards count shards found)
unfolding collect_shards
collect_shards-IsKeyed count [] found h k = k
collect_shards-IsKeyed count (s ∷ shards) found h k =
    let k' = collect-IsKeyed count s.entries found h.0.1.stored k in
    All-if (leb count (length (collect count s.entries found))) (collect count s.entries found)
      (collect_shards count shards (collect count s.entries found)) k'
      (collect_shards-IsKeyed count shards (collect count s.entries found) h.1 k')

-- The candidates of an open, well-formed cache.
pub evict_candidates-IsKeyed :
    (c : Cache) (count : ℕ)
    → IsCache c
    → c.closed ≡ false
    → (es : List CacheEntry) × (evict_candidates c count ≡ ok es) × All IsKeyed es
unfolding evict_candidates
evict_candidates-IsKeyed c count h is_open = (
  collect_shards count c.shards [],
  simp is_open refl,
  collect_shards-IsKeyed count c.shards [] h.each tt,
)
