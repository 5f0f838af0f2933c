-- ===== src/Tiered/Tiering.antt =====
-- pkg/tieredcache/tieredcache.go: `performTiering`, which moves entries from L0 to L1.
use tieredcache.Base.{
  ℕ, Bool, true, false, List, [], ◌∷◌, Bytes, if◌then◌else◌, Run, done, ◌>>=◌, Result, ok, fail,
}
use tieredcache.Common.Errors.{GoError, is_nil}
use tieredcache.Common.Entry.{CacheEntry}
use tieredcache.L0.State.{Cache}
use tieredcache.L0.Ops.{demote}
use tieredcache.L0.Queries.{evict_candidates}
use tieredcache.L1.Badger.{Badger}
use tieredcache.L1.State.{L1Cache, l1_get, l1_set}

module _ {badger : Badger} where
  -- After the check of the copy: the entry leaves L0 only if L1 has given back a value.
  unfoldable pub after_verify :
      Cache → L1Cache badger → CacheEntry → Result GoError Bytes → Run (Cache × L1Cache badger)
  after_verify l0 l1 e (fail err) = done (l0, l1)
  after_verify l0 l1 e (ok v) = do (l0', _) ← demote l0 e.key; done (l0', l1)

  -- After the copy to L1
  unfoldable pub after_copy :
      Cache → L1Cache badger → CacheEntry → ℕ → Bool → Run (Cache × L1Cache badger)
  after_copy l0 l1 e now false = done (l0, l1)
  after_copy l0 l1 e now true = do (l1', r) ← l1_get l1 e.key now; after_verify l0 l1' e r

  -- One candidate. The errors are printed only.
  unfoldable pub tier_entry : Cache → L1Cache badger → CacheEntry → ℕ → Run (Cache × L1Cache badger)
  tier_entry l0 l1 e now = do
    (l1', err) ← l1_set l1 e.key e.value e.ttl now
    after_copy l0 l1' e now (is_nil err)

  -- The loop over the candidates, at one moment.
  unfoldable pub tier_entries :
      Cache → L1Cache badger → List CacheEntry → ℕ → Run (Cache × L1Cache badger)
  tier_entries l0 l1 [] now = done (l0, l1)
  tier_entries l0 l1 (e ∷ es) now = do
    (l0', l1') ← tier_entry l0 l1 e now
    tier_entries l0' l1' es now

  unfoldable pub tier_candidates :
      Cache → L1Cache badger → Result GoError (List CacheEntry) → ℕ → Run (Cache × L1Cache badger)
  tier_candidates l0 l1 (fail e) now = done (l0, l1)
  tier_candidates l0 l1 (ok es) now = tier_entries l0 l1 es now

  -- `performTiering` with both tiers there. `below` is the comparison of the usage ratio of L0
  -- with the threshold, in floating point.
  unfoldable pub perform_tiering :
      (Cache → Bool) → ℕ → Cache → L1Cache badger → ℕ → Run (Cache × L1Cache badger)
  perform_tiering below batch_size l0 l1 now =
      if below l0 then done (l0, l1) else tier_candidates l0 l1 (evict_candidates l0 batch_size) now
