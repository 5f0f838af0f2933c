-- ===== src/Tiered/StartTests.antt =====
-- pkg/tieredcache/tieredcache.go: `New`, `Initialize` and `Close` at concrete caches.
use tieredcache.Base.{
  false, ◌≡◌, refl, List, [], ◌∷◌, none, str, ok, true, arith, done, Returns, float_leb, bytes_eq,
  replicate, Bytes, pos, negsuc, panic,
}
use tieredcache.Config as Configuration
use tieredcache.Config.Default.{default_config, default_l1}
use tieredcache.Config.Validate.{Formats}
use tieredcache.Config.Machine.{validate-default_config}
use tieredcache.L1.State.{L1Cache}
use tieredcache.L1.Sample.{badger_a, system_a, l1_a, l1_a-IsL1}
use tieredcache.L1.Iterate.{Item, next, init_shard, current}
use tieredcache.L0.Sample.{cache_a, cache_a-IsCache}
use tieredcache.L0.Ops.{set_value}
use tieredcache.Replay.Entry.{WalEntry, Operation, op_set, op_delete}
use tieredcache.Tiered.Moved.{IsReady}
use tieredcache.Tiered.PreWarm.{
  pre_warm, load_loop, load_round, load_item, batched, send_batch, run_workers, set_pairs,
}
use tieredcache.L1.Open.{built, l1_new, open_shards, open_shard, made}
use tieredcache.Replay.Sample.{codec_a, manager_of, moment}
use tieredcache.Replay.Manager.{recover}
use tieredcache.Tiered.State.{TieredCache}
use tieredcache.Tiered.Start.{
  from_l1, cold_start, rebuild_of, fresh, Schedule, initialize, tiered_close,
}
use tieredcache.Tiered.Started.{IsSchedule, IsStarted, initialize-IsStarted}

abbrev formats_a : Formats
formats_a = record { float_text = λ x. []; config_text = λ c. [] }

abbrev config_a : Configuration.Config
config_a = default_config 8

abbrev fresh_a : TieredCache badger_a
fresh_a = fresh config_a.tieredcache (manager_of [] 0)

abbrev l1_of_a : L1Cache badger_a
l1_of_a = built system_a config_a.tieredcache.l1 (replicate config_a.tieredcache.l1.shard_count [])

-- The workers apply the entries in the order of the log, and none waits for ever.
abbrev schedule_a : Schedule
schedule_a = record { order = λ es. es; blocks = λ es failed. false }

schedule_a-IsSchedule : IsSchedule schedule_a
schedule_a-IsSchedule = record { each = λ es. refl; waits = λ es failed e. absurd (cc e) }

initialize-IsStarted_example :
    Returns
      (initialize system_a codec_a schedule_a 5 config_a.tieredcache fresh_a (manager_of [] 0))
      (IsStarted config_a.tieredcache (recover codec_a (manager_of [] 0)))
unfolding default_config default_l1 l1_new open_shards open_shard made float_leb
initialize-IsStarted_example =
    initialize-IsStarted system_a codec_a formats_a schedule_a 5 config_a fresh_a (manager_of [] 0)
      l1_of_a schedule_a-IsSchedule
      ((validate-default_config formats_a 8 (omega arith)).1 (omega arith)) refl refl

prewarm_by_default : rebuild_of [] true ≡ from_l1
unfolding rebuild_of bytes_eq
prewarm_by_default = refl

no_rebuild : rebuild_of (str "none") true ≡ cold_start
unfolding rebuild_of bytes_eq
no_rebuild = refl

closed_for_good : tiered_close (tiered_close fresh_a) ≡ tiered_close fresh_a
unfolding tiered_close
closed_for_good = refl

tiers_a-IsReady : IsReady cache_a l1_a
tiers_a-IsReady = record {
  valid0 = cache_a-IsCache;
  open0 = refl;
  valid1 = l1_a-IsL1;
  open1 = refl;
}

abbrev wal_entry : Operation → Bytes → Bytes → WalEntry
wal_entry o key value = record {
  sequence = 1;
  timestamp = moment;
  operation = o;
  tier = 0;
  key = key;
  value = value;
  checksum = 0;
  metadata = [];
}

-- A key that is set and deleted, and one that stays.
abbrev log_a : List WalEntry
log_a =
    wal_entry op_set (str "a") (str "1")
    ∷ wal_entry op_set (str "b") (str "2")
    ∷ wal_entry op_delete (str "a") []
    ∷ []

-- The keys of a database in the order of its list, each with its value.
abbrev items_a : badger_a.Db → List Item
items_a [] = []
items_a ((k, (v, x)) ∷ db) = (k, ok v) ∷ items_a db

-- Two values above the limit of L0, and one worker: it never ends.
abbrev large_l1 : L1Cache badger_a
large_l1 = record l1_a {
  shards = ((str "k", (str "large", 0)) ∷ []) ∷ ((str "j", (str "large", 0)) ∷ []) ∷ [];
}

waits_for_ever :
    pre_warm badger_a items_a (λ es. es) (λ n. 0) (pos 1) (pos 9) 1 9 large_l1 cache_a ≡ done none
unfolding pre_warm load_loop load_round load_item batched send_batch run_workers set_pairs next
    init_shard current set_value
waits_for_ever = refl

-- A batch size that `Validate` accepts.
negative_batch_panics :
    pre_warm badger_a items_a (λ es. es) (λ n. 0) (pos 4) (negsuc 0) 1 9 l1_a cache_a ≡ panic
unfolding pre_warm
negative_batch_panics = refl
