-- ===== src/L1/Opened.antt =====
-- pkg/l1/l1_badger.go: what `New` returns.
use mathlib.Core.List.{append_assoc}
use tieredcache.Base.{
  ◌==◌, ◌++◌, ◌↔◌, bytes_eq_iff, ℕ, zero, suc, ◌+◌, ◌≡◌, refl, ap, subst, Bool, true, false, List,
  [], ◌∷◌, Option, none, some, Bytes, str, is_empty, length, arith, Result, ok, fail, if◌then◌else◌,
  float_leb, float_zero,
}
use tieredcache.Common.Errors.{GoError, text, wrap}
use tieredcache.Config.{L1Config}
use tieredcache.L1.Badger.{Badger}
use tieredcache.L1.State.{L1Cache}
use tieredcache.L1.Reads.{IsL1}
use tieredcache.L1.Open.{
  System, Options, options_of, open_shard, open_shards, made, opened, and_shards, sync_mode_of,
  shard_count_of, with_shards, after_folder, l1_new, join, shard_name,
}

module _ {badger : Badger} (system : System badger) (cfg : L1Config) where
  -- The database that Badger opened in the folder of a shard: it syncs its writes in the mode "immediate"
  -- only, and is in memory in the mode "disabled" only.
  abbrev pub IsShardOf : Bytes → ℕ → badger.Db → Type 0
  IsShardOf mode i db =
      (o : Options) × (system.open_db o ≡ ok db)
      × (o.folder ≡ cfg.ssd_path ++ str "/" ++ shard_name i)
      × ((o.sync_writes ≡ true) ↔ (mode ≡ str "immediate"))
      × ((o.in_memory ≡ true) ↔ (mode ≡ str "disabled"))

  abbrev pub AreShards : Bytes → ℕ → List badger.Db → Type 0
  AreShards mode i [] = Unit
  AreShards mode i (db ∷ dbs) = IsShardOf mode i db × AreShards mode (i + 1) dbs

  -- What holds of a result, if it is no error.
  abbrev pub IfOk : {A : Type 0} → (A → Type 0) → Result GoError A → Type 0
  IfOk P (ok a) = P a
  IfOk P (fail err) = Unit

  opened-IfOk :
      (mode : Bytes) (i : ℕ) (o : Option Bytes) (r : Result Bytes badger.Db)
      → system.open_db (options_of cfg mode i) ≡ r
      → IfOk (IsShardOf mode i) (elim o as (λ _. Result GoError badger.Db) [
        | none ↦ opened system cfg i r
        | some err ↦ fail (wrap (str "failed to create shard directory: ") (text err))
      ])
  unfolding options_of join
  opened-IfOk mode i none (ok db) e = (
    options_of cfg mode i,
    e,
    simp append_assoc refl,
    bytes_eq_iff mode (str "immediate"),
    bytes_eq_iff mode (str "disabled"),
  )
  opened-IfOk mode i none (fail err) e = tt
  opened-IfOk mode i (some err) r e = tt

  abbrev ShardsFrom : Bytes → ℕ → ℕ → List badger.Db → Type 0
  ShardsFrom mode i n dbs = (length dbs ≡ n) × AreShards mode i dbs

  and_shards-IfOk :
      (mode : Bytes) (i n : ℕ) (r : Result GoError badger.Db)
      (rest : Result GoError (List badger.Db))
      → IfOk (IsShardOf mode i) r
      → IfOk (ShardsFrom mode (i + 1) n) rest
      → IfOk (ShardsFrom mode i (suc n)) (and_shards system cfg r rest)
  and_shards-IfOk mode i n (ok db) (ok dbs) h k = (ap suc k.0, (h, k.1))
  and_shards-IfOk mode i n (ok db) (fail err) h k = tt
  and_shards-IfOk mode i n (fail err) rest h k = tt

  open_shards-IfOk :
      (mode : Bytes) (i n : ℕ) → IfOk (ShardsFrom mode i n) (open_shards system cfg mode i n)
  unfolding open_shards open_shard made
  open_shards-IfOk mode i zero = (refl, tt)
  open_shards-IfOk mode i (suc n) =
      and_shards-IfOk mode i n (open_shard system cfg mode i)
        (open_shards system cfg mode (i + 1) n)
        (opened-IfOk mode i (system.make_folder (join cfg.ssd_path (shard_name i)))
          (system.open_db (options_of cfg mode i)) refl)
        (open_shards-IfOk mode (i + 1) n)

  -- A new cache: well formed, open, with a database for each shard, opened with the options of its number.
  pub record IsNew (c : L1Cache badger) : Type 0 where
    pub valid : IsL1 c
    pub is_open : c.closed ≡ false
    pub counted : c.shard_count ≡ (if cfg.shard_count == 0 then 32 else cfg.shard_count)
    pub shards : AreShards c.sync_mode 0 c.shards
    pub mode : c.sync_mode ≡ (if is_empty cfg.sync_mode then str "periodic" else cfg.sync_mode)

  with_shards-IfOk :
      (r : Result GoError (List badger.Db))
      → IfOk
          (ShardsFrom
            (sync_mode_of system cfg cfg.sync_mode)
            0
            (shard_count_of system cfg cfg.shard_count))
          r
      → IfOk IsNew (with_shards system cfg r)
  with_shards-IfOk (ok dbs) h = record {
    valid = record { sharded = h.0; some_shard = ground arith };
    is_open = refl;
    counted = refl;
    shards = h.1;
    mode = refl;
  }
  with_shards-IfOk (fail err) h = tt

  after_folder-IfOk :
      (o : Option Bytes) (message : Bytes) (r : Result GoError (L1Cache badger))
      → IfOk IsNew r
      → IfOk IsNew (after_folder system cfg o message r)
  after_folder-IfOk none message r h = h
  after_folder-IfOk (some err) message r h = tt

  all_shards : Result GoError (L1Cache badger)
  all_shards = with_shards system cfg (
      open_shards system cfg (sync_mode_of system cfg cfg.sync_mode) 0
        (shard_count_of system cfg cfg.shard_count))

  all_shards-IfOk : IfOk IsNew all_shards
  unfolding all_shards
  all_shards-IfOk = with_shards-IfOk _ (open_shards-IfOk _ 0 _)

  value_folder-IfOk :
      (b : Bool) (o : Option Bytes) (message : Bytes)
      → IfOk IsNew (if b then all_shards else after_folder system cfg o message all_shards)
  value_folder-IfOk true o message = all_shards-IfOk
  value_folder-IfOk false o message = after_folder-IfOk o message all_shards all_shards-IfOk

  guarded-IfOk :
      (a b : Bool) (e e' : GoError) (r : Result GoError (L1Cache badger))
      → IfOk IsNew r
      → IfOk IsNew (if a then fail e else if b then fail e' else r)
  guarded-IfOk true b e e' r h = tt
  guarded-IfOk false true e e' r h = tt
  guarded-IfOk false false e e' r h = h

  -- Whatever `New` returns without an error is a well-formed, open cache of as many shards as the
  -- configuration says (32 for 0), in the sync mode of the configuration, or the periodic one if it says
  -- none. Each is the database that Badger has opened in the folder of its number, with synced writes
  -- exactly in the mode "immediate", and in memory exactly in the mode "disabled".
  pub l1_new-IsNew : (c : L1Cache badger) → l1_new system cfg ≡ ok c → IsNew c
  unfolding l1_new all_shards
  l1_new-IsNew c e = subst (IfOk IsNew) e (
      guarded-IfOk (is_empty cfg.ssd_path) (float_leb cfg.max_capacity_gb float_zero)
        (text (str "ssd_path cannot be empty"))
        (text (str "max_capacity_gb must be greater than 0"))
        (after_folder system cfg (system.make_folder cfg.ssd_path)
          (str "failed to create ssd_path: ")
          (if is_empty cfg.value_log_path
            then all_shards
            else after_folder system cfg (system.make_folder cfg.value_log_path)
                (str "failed to create value_log_path: ") all_shards))
        (after_folder-IfOk (system.make_folder cfg.ssd_path) (str "failed to create ssd_path: ") _ (
          value_folder-IfOk (is_empty cfg.value_log_path) (system.make_folder cfg.value_log_path)
            (str "failed to create value_log_path: "))))
