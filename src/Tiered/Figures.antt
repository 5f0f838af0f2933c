-- ===== src/Tiered/Figures.antt =====
-- pkg/tieredcache/tieredcache.go: `Stats`. The statistics of a tier that
-- is not there, or that refuses, are the zero value, which is `none`.
use tieredcache.Base.{List, [], Option, none, some, Bytes, str, if◌then◌else◌, Result, ok, fail}
use tieredcache.Common.Errors.{GoError}
use tieredcache.L0.State.{Cache}
use tieredcache.L0.Queries.{Stats, stats}
use tieredcache.L1.Badger.{Badger}
use tieredcache.L1.State.{L1Cache}
use tieredcache.L1.Iterate.{L1Stats, l1_stats}
use tieredcache.L2.Sinks.{SinkStats}
use tieredcache.Tiered.State.{TieredCache, Sinks, not_initialized}

pub record CacheStats : Type 0 where
  pub l0 : Option Stats
  pub l1 : Option L1Stats
  pub l2 : List (Bytes × SinkStats)

abbrev pub known : {A : Type 0} → Result GoError A → Option A
known (ok x) = some x
known (fail err) = none

abbrev pub l0_figures : Option Cache → Option Stats
l0_figures none = none
l0_figures (some a) = known (stats a)

abbrev pub l2_figures : List (Bytes × SinkStats) → Option Sinks → List (Bytes × SinkStats)
l2_figures sink_stats none = []
l2_figures sink_stats (some sinks) = sink_stats

module _ {badger : Badger} where
  abbrev pub l1_figures : Option (L1Cache badger) → Option L1Stats
  l1_figures none = none
  l1_figures (some b) = known (l1_stats b)

  -- `Stats`, with what the sink manager says of its sinks. It is not refused after `Close`.
  unfoldable pub tiered_stats :
      List (Bytes × SinkStats) → TieredCache badger → Result GoError CacheStats
  tiered_stats sink_stats c =
      if c.initialized
      then ok
          (record { l0 = l0_figures c.l0; l1 = l1_figures c.l1; l2 = l2_figures sink_stats c.l2 })
      else fail (not_initialized (str "stats"))
