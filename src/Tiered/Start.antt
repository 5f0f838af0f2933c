-- ===== src/Tiered/Start.antt =====
-- pkg/tieredcache/tieredcache.go: `New`, `Initialize` with the recovery, and `Close`.
use tieredcache.Base.{
  suc, ℕ, ◌*◌, Bool, true, false, List, [], ◌∷◌, Option, none, some, Bytes, str, bytes_eq,
  if◌then◌else◌, ◌==◌, Run, done, ◌>>=◌, Result, ok, fail, ℤ, pos, negsuc,
}
use tieredcache.Common.Errors.{
  GoError, nil, code, config, init, text, wrap, closed, no_value, is_nil,
}
use tieredcache.Config.{L0Config, TieredCacheConfig}
use tieredcache.Config as Configuration
use tieredcache.Config.Validate.{Formats, validate}
use tieredcache.L0.State as State
use tieredcache.L0.State.{Cache, new}
use tieredcache.L0.Ops.{set_value, delete}
use tieredcache.L0.Snapshot.{Json}
use tieredcache.L0.Snapshot.Folder.{SnapFile, Folder, find_latest_snapshot}
use tieredcache.L0.Snapshot.Calls.{restore}
use tieredcache.L1.Badger.{Badger}
use tieredcache.L1.State.{L1Cache, l1_set, l1_delete, l1_close}
use tieredcache.L1.Open.{System, l1_new}
use tieredcache.Replay.Entry.{WalEntry, Codec, Operation, op_set, op_delete, op_promote, op_demote}
use tieredcache.Replay.Manager.{Manager, Disk, ReplayError, new_recovery_manager, recover, close}
use tieredcache.Tiered.State.{TieredCache}

-- A count, with 0 for one that is not positive.
abbrev pub count_of : ℤ → ℕ
count_of (pos n) = n
count_of (negsuc n) = 0

-- The recovery manager that `New` makes.
abbrev pub recovery_of : TieredCacheConfig → Disk → Result ReplayError Manager
recovery_of cfg disk =
    new_recovery_manager cfg.replay.wal_path cfg.replay.checkpoint_path
      (count_of cfg.replay.max_replay_workers) (count_of cfg.replay.checkpoint_interval) disk

abbrev pub fresh : {badger : Badger} → TieredCacheConfig → Manager → TieredCache badger
fresh cfg m = record {
  l0 = none;
  l1 = none;
  l2 = none;
  recovery = some m;
  max_payload_bytes = cfg.l0.max_payload_bytes;
  initialized = false;
  closed = false;
  promotions = [];
}

abbrev pub with_recovery :
    {badger : Badger}
    → TieredCacheConfig
    → Result ReplayError Manager
    → Result GoError (TieredCache badger)
with_recovery cfg (ok m) = ok (fresh cfg m)
with_recovery cfg (fail err) =
    fail (wrap (str "failed to create recovery manager: ") (text (str "wal_path cannot be empty")))

-- `New`, with the files of the log as they are.
unfoldable pub tiered_new :
    {badger : Badger}
    → Formats
    → Option Configuration.Config
    → Disk
    → Result GoError (TieredCache badger)
tiered_new formats none disk =
    fail (config (str "config") no_value (str "configuration cannot be nil") [])
tiered_new formats (some cfg) disk =
    if is_nil (validate formats (some cfg))
    then with_recovery cfg.tieredcache (recovery_of cfg.tieredcache disk)
    else fail (validate formats (some cfg))

-- The configuration of L0
unfoldable pub l0_config : L0Config → State.Config
l0_config cfg = record {
  max_memory_mb = cfg.max_memory_mb;
  max_payload_bytes = cfg.max_payload_bytes;
  weighted_unit = cfg.weighted_unit_bytes;
  shard_count = cfg.shard_count;
  snapshot_path = cfg.snapshot_path;
  snapshot_int = pos (cfg.snapshot_interval_sec * 1000000000);
  enable_snapshot = cfg.enable_snapshot;
}

-- What runs in the background after `Initialize` to fill L0.
pub data Rebuild : Type 0 where
  from_snapshot from_l1 cold_start : Rebuild

unfoldable pub rebuild_of : Bytes → Bool → Rebuild
rebuild_of rebuild prewarm =
    if bytes_eq rebuild (str "snapshot")
    then from_snapshot
    else if bytes_eq rebuild (str "l1")
    then from_l1
    else if bytes_eq rebuild (str "none")
    then cold_start
    else if prewarm
    then from_l1
    else cold_start

abbrev pub closed_l0 : Option Cache → Option Cache
closed_l0 none = none
closed_l0 (some a) = some (record a { closed = true })

abbrev pub closed_recovery : Option Manager → Option Manager
closed_recovery none = none
closed_recovery (some m) = some (close m)

abbrev pub rebuilt : Cache × GoError → Cache × GoError
rebuilt (a, nil) = (a, nil)
rebuilt (a, err) = (a, wrap (str "failed to restore from snapshot: ") err)

abbrev pub restored : Json → ℕ → Cache → Result GoError SnapFile → Run (Cache × GoError)
restored json now a (fail err) = done (a, nil)
restored json now a (ok file) = do r ← restore json now a (ok file.content); done (rebuilt r)

-- `rebuildFromSnapshot` of a cache that has L0, where the folder is as it is.
unfoldable pub rebuild_from_snapshot : Json → ℕ → Folder → Cache → Run (Cache × GoError)
rebuild_from_snapshot json now folder a = restored json now a (find_latest_snapshot folder)

-- What is up to the order in which the goroutines of `Recover` run (Replay/Pool): the order in which the
-- workers apply the entries of the log, and, where so many of them fail, whether a worker finds the channel
-- of errors full and waits for ever.
pub record Schedule : Type 0 where
  pub order : List WalEntry → List WalEntry
  pub blocks : List WalEntry → ℕ → Bool

-- What a recovery leaves: nothing, if it never ends.
abbrev pub Recovered : Badger → Type 0
Recovered badger = Option (Cache × L1Cache badger × Manager)

module _ {badger : Badger} where
  -- What `performRecovery` does with an entry: the tiers after it, and the error that goes to `Recover`.
  unfoldable pub apply_entry :
      WalEntry → ℕ → Cache → L1Cache badger → Operation → Run (Cache × L1Cache badger × GoError)
  apply_entry e now a b op_set =
      if e.tier == 0
      then (do (a', err) ← set_value a e.key e.value (pos 0) now; done (a', b, err))
      else if e.tier == 1
      then (do (b', err) ← l1_set b e.key e.value (pos 0) now; done (a, b', err))
      else done (a, b, nil)
  apply_entry e now a b op_delete =
      if e.tier == 0
      then (do (a', err) ← delete a e.key; done (a', b, err))
      else if e.tier == 1
      then (do (b', err) ← l1_delete b e.key; done (a, b', err))
      else done (a, b, nil)
  apply_entry e now a b op_promote = done (a, b, nil)
  apply_entry e now a b op_demote = done (a, b, nil)

  -- The entries in the order in which the workers apply them, and how many of them fail.
  unfoldable pub apply_entries :
      List WalEntry → ℕ → Cache → L1Cache badger → Run (Cache × L1Cache badger × ℕ)
  apply_entries [] now a b = done (a, b, 0)
  apply_entries (e ∷ es) now a b = do
    (a', b', err) ← apply_entry e now a b e.operation
    (a'', b'', failed) ← apply_entries es now a' b'
    done (a'', b'', if is_nil err then failed else suc failed)

  -- `performRecovery` after the scan of the log; an error is printed only.
  unfoldable pub recovered :
      Schedule
      → ℕ
      → Cache
      → L1Cache badger
      → Manager
      → Result ReplayError (List WalEntry × Manager)
      → Run (Recovered badger)
  recovered schedule now a b m (fail err) = done (some (a, b, m))
  recovered schedule now a b m (ok (es, m')) = do
    (a', b', failed) ← apply_entries (schedule.order es) now a b
    done (if schedule.blocks es failed then none else some (a', b', m'))

  unfoldable pub perform_recovery :
      Codec → Schedule → ℕ → Bool → Cache → L1Cache badger → Manager → Run (Recovered badger)
  perform_recovery codec schedule now verify a b m =
      if verify then recovered schedule now a b m (recover codec m) else done (some (a, b, m))

  -- The end of `Initialize`, if it comes to it.
  abbrev pub begun :
      TieredCacheConfig
      → TieredCache badger
      → Recovered badger
      → Option (TieredCache badger × GoError)
  begun cfg c none = none
  begun cfg c (some (a, b, m)) = some (
    record c {
      l0 = some a;
      l1 = some b;
      l2 = if cfg.l2.enabled then some [] else c.l2;
      recovery = some m;
      initialized = true;
    },
    nil,
  )

  -- `Initialize` once L1 is there.
  unfoldable pub with_l1 :
      Codec
      → Schedule
      → ℕ
      → TieredCacheConfig
      → TieredCache badger
      → Manager
      → Cache
      → Result GoError (L1Cache badger)
      → Run (Option (TieredCache badger × GoError))
  with_l1 codec schedule now cfg c m a (fail err) = done (
      some (
        record c { l0 = some (record a { closed = true }) },
        init (str "l1") (str "initialize") err true,
      ))
  with_l1 codec schedule now cfg c m a (ok b) = do
    r ← perform_recovery codec schedule now cfg.replay.verify_on_recovery a b m
    done (begun cfg c r)

  unfoldable pub with_l0 :
      System badger
      → Codec
      → Schedule
      → ℕ
      → TieredCacheConfig
      → TieredCache badger
      → Manager
      → Result GoError Cache
      → Run (Option (TieredCache badger × GoError))
  with_l0 system codec schedule now cfg c m (fail err) =
      done (some (c, init (str "l0") (str "initialize") err true))
  with_l0 system codec schedule now cfg c m (ok a) =
      with_l1 codec schedule now cfg c m a (l1_new system cfg.l1)

  -- `Initialize` of a cache that `New` has made, with its recovery manager, all at one moment and called
  -- once at a time; `none` if it never returns. What runs afterwards in the background is `rebuild_of` and
  -- the tiering.
  unfoldable pub initialize :
      System badger
      → Codec
      → Schedule
      → ℕ
      → TieredCacheConfig
      → TieredCache badger
      → Manager
      → Run (Option (TieredCache badger × GoError))
  initialize system codec schedule now cfg c m =
      if c.closed
      then done (some (c, init (str "tieredcache") (str "initialize") (code closed) false))
      else with_l0 system codec schedule now cfg c m (new (some (l0_config cfg.l0)))

  abbrev pub closed_l1 : Option (L1Cache badger) → Option (L1Cache badger)
  closed_l1 none = none
  closed_l1 (some b) = some (l1_close b)

  -- `Close`, when databases, sinks and files can be closed. The last snapshot of L0 writes nothing
  -- (L0/Snapshot/Calls), so its folder is left out here.
  unfoldable pub tiered_close : TieredCache badger → TieredCache badger
  tiered_close c = if c.closed then c else record c {
    l0 = closed_l0 c.l0;
    l1 = closed_l1 c.l1;
    recovery = closed_recovery c.recovery;
    closed = true;
  }
