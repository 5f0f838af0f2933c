-- ===== src/Config/Load.antt =====
-- pkg/config/config.go: `Load`, `LoadOrDefault`, `Save` and the conversions of the configuration.
-- The YAML library is an interface; the files are a function from their paths.
use tieredcache.Base.{
  ℕ, ◌*◌, ◌≡◌, ◌≢◌, refl, ◌⊎◌, inl, inr, Bool, true, false, [], ◌∷◌, ◌++◌, Option, none, some,
  Bytes, str, bytes_eq, bytes_eq_refl, bytes_eq_iff, is_empty, if◌then◌else◌, Result, ok, fail,
  arith,
}
use tieredcache.Common.Errors.{GoError, nil, config, no_value, shown, is_nil}
use tieredcache.Config.{Config}
use tieredcache.Config.Default.{default_config}
use tieredcache.Config.Validate.{Formats, validate}

-- `yaml.Marshal` and `yaml.Unmarshal` into an empty configuration, with the texts of their errors.
pub record Yaml : Type 0 where
  pub marshal : Config → Result Bytes Bytes
  pub unmarshal : Bytes → Result Bytes Config

-- The library reads back what it has written for a configuration.
abbrev pub ReadsBack : Yaml → Config → Type 0
ReadsBack yaml cfg = (text : Bytes) → yaml.marshal cfg ≡ ok text → yaml.unmarshal text ≡ ok cfg

-- A path: nothing there, an error on reading, or a file.
pub data FileState : Type 0 where
  missing : FileState
  unreadable : Bytes → FileState
  contents : Bytes → FileState

abbrev pub Files : Type 0
Files = Bytes → FileState

-- `Load` of a file's text
abbrev pub parsed : Bytes → Result Bytes Config → Result GoError Config
parsed text (ok cfg) = ok cfg
parsed text (fail err) =
    fail (config (str "content") (shown text) (str "failed to parse YAML: " ++ err) [])

abbrev pub load_file : Yaml → Bytes → FileState → Result GoError Config
load_file yaml path missing = fail (
    config (str "path") (shown path) (str "configuration file does not exist")
      (str "provide an existing configuration file"))
load_file yaml path (unreadable err) =
    fail (config (str "path") (shown path) (str "failed to read configuration file: " ++ err) [])
load_file yaml path (contents text) = parsed text (yaml.unmarshal text)

-- `Load`
unfoldable pub load : Yaml → Files → Bytes → Result GoError Config
load yaml files path =
    if is_empty path
    then fail (
        config (str "path") (shown path) (str "configuration path cannot be empty")
          (str "provide a valid file path"))
    else load_file yaml path (files path)

-- `err.(*common.ConfigError)`
abbrev pub is_config_error : GoError → Bool
is_config_error (config _ _ _ _) = true
is_config_error _ = false

abbrev pub or_default : ℕ → Result GoError Config → Result GoError Config
or_default cpus (ok cfg) = ok cfg
or_default cpus (fail err) = if is_config_error err then ok (default_config cpus) else fail err

-- `LoadOrDefault`, on a machine with `cpus` cores.
unfoldable pub load_or_default : ℕ → Yaml → Files → Bytes → Result GoError Config
unfolding load
load_or_default cpus yaml files path =
    if is_empty path then ok (default_config cpus) else or_default cpus (load yaml files path)

-- How the calls of the system end: well, or with an error of `MkdirAll`, or of `WriteFile`, which leaves the
-- file in some state: as it was, if it cannot be opened, and else cut off.
pub data WriteFault : Type 0 where
  no_fault : WriteFault
  no_directory : Bytes → WriteFault
  not_written : Bytes → FileState → WriteFault

abbrev pub with_file : Bytes → Bytes → Files → Files
with_file path text files q = if bytes_eq q path then contents text else files q

-- `Save` after the configuration is marshalled.
abbrev pub save_text :
    Formats → WriteFault → Config → Bytes → Files → Result Bytes Bytes → GoError × Files
save_text formats fault cfg path files (fail err) = (
  config (str "config") (shown (formats.config_text cfg))
      (str "failed to marshal configuration: " ++ err) [],
  files,
)
save_text formats (no_directory err) cfg path files (ok text) =
    (config (str "path") (shown path) (str "failed to create directory: " ++ err) [], files)
save_text formats (not_written err rest) cfg path files (ok text) = (
  config (str "path") (shown path) (str "failed to write configuration: " ++ err) [],
  λ q. if bytes_eq q path then rest else files q,
)
save_text formats no_fault cfg path files (ok text) = (nil, with_file path text files)

-- `Save` after `Validate`
abbrev pub save_valid :
    Yaml → Formats → WriteFault → Config → Bytes → Files → GoError → GoError × Files
save_valid yaml formats fault cfg path files err =
    if is_nil err then save_text formats fault cfg path files (yaml.marshal cfg) else (err, files)

-- `Save`
unfoldable pub save : Yaml → Formats → WriteFault → Option Config → Bytes → Files → GoError × Files
save yaml formats fault none path files =
    (config (str "config") no_value (str "configuration cannot be nil") [], files)
save yaml formats fault (some cfg) path files =
    if is_empty path
    then (config (str "path") (shown path) (str "path cannot be empty") [], files)
    else save_valid yaml formats fault cfg path files (validate formats (some cfg))

-- `GetMaxMemoryBytes`
unfoldable pub get_max_memory_bytes : Config → ℕ
get_max_memory_bytes cfg = cfg.tieredcache.l0.max_memory_mb * 1024 * 1024

-- A `time.Duration` in nanoseconds: `GetSyncMode`, `GetTieringInterval`, `GetSnapshotInterval`.
unfoldable pub get_sync_mode : Config → ℕ
get_sync_mode cfg = cfg.tieredcache.l1.sync_interval_ms * 1000000

unfoldable pub get_tiering_interval : Config → ℕ
get_tiering_interval cfg = cfg.tieredcache.l2.tiering.tier_interval_sec * 1000000000

unfoldable pub get_snapshot_interval : Config → ℕ
get_snapshot_interval cfg = cfg.tieredcache.l0.snapshot_interval_sec * 1000000000

-- Every error of `Load` is a ConfigError.
load-is_config_error :
    (yaml : Yaml) (files : Files) (path : Bytes) (err : GoError)
    → load yaml files path ≡ fail err
    → is_config_error err ≡ true
unfolding load
load-is_config_error yaml files path err e = ground arith

-- `LoadOrDefault` never fails: it returns what `Load` returns, where the path is not empty and
-- `Load` succeeds, and in every other case, that of a file that is no YAML included, the default
-- configuration.
pub load_or_default-ok :
    (cpus : ℕ) (yaml : Yaml) (files : Files) (path : Bytes)
    → (cfg : Config) × (load_or_default cpus yaml files path ≡ ok cfg)
      × ((load yaml files path ≡ ok cfg)
          ⊎ (((err : GoError) × (load yaml files path ≡ fail err)) × (cfg ≡ default_config cpus)))
unfolding load_or_default load
load_or_default-ok cpus yaml files [] = (default_config cpus, refl, inr ((_, refl), refl))
load_or_default-ok cpus yaml files (b ∷ path) = by_result (load yaml files (b ∷ path)) refl
  where
    by_result :
        (r : Result GoError Config)
        → load yaml files (b ∷ path) ≡ r
        → (cfg : Config) × (or_default cpus (load yaml files (b ∷ path)) ≡ ok cfg)
          × ((load yaml files (b ∷ path) ≡ ok cfg)
              ⊎ (((err : GoError) × (load yaml files (b ∷ path) ≡ fail err))
                  × (cfg ≡ default_config cpus)))
    by_result (ok cfg) e = (cfg, rw e refl, inl e)
    by_result (fail err) e = (
      default_config cpus,
      rw e (rw (load-is_config_error yaml files (b ∷ path) err e) refl),
      inr ((err, e), refl),
    )

is_nil-cases : (e : GoError) → (e ≡ nil) ⊎ ((e ≢ nil) × (is_nil e ≡ false))
is_nil-cases e = ground arith

-- What holds of the outcome of a `Save` where `Validate` has returned `v`.
pub record Saved (yaml : Yaml) (cfg : Config) (path : Bytes) (files : Files) (v : GoError)
    (r : GoError × Files) : Type 0 where
  pub refused : v ≢ nil → r ≡ (v, files)
  pub saved : r.0 ≡ nil → load yaml r.1 path ≡ ok cfg
  pub others : (q : Bytes) → q ≢ path → r.1 q ≡ files q

module _ (yaml : Yaml) (formats : Formats) (cfg : Config) (b : ℕ) (s : Bytes) (files : Files)
    (back : ReadsBack yaml cfg) where
  save_text-Saved :
      (fault : WriteFault) (r : Result Bytes Bytes)
      → yaml.marshal cfg ≡ r
      → Saved yaml cfg (b ∷ s) files nil (save_text formats fault cfg (b ∷ s) files r)
  unfolding load
  save_text-Saved fault (fail err) e = record {
    refused = λ bad. absurd (bad refl);
    saved = λ h. cc;
    others = λ q ne. refl;
  }
  save_text-Saved (no_directory err) (ok text) e = record {
    refused = λ bad. absurd (bad refl);
    saved = λ h. cc;
    others = λ q ne. refl;
  }
  save_text-Saved (not_written err rest) (ok text) e = record {
    refused = λ bad. absurd (bad refl);
    saved = λ h. cc;
    others = λ q ne. ground (arith, bytes_eq_iff q (b ∷ s));
  }
  save_text-Saved no_fault (ok text) e = record {
    refused = λ bad. absurd (bad refl);
    saved = λ h. rw (bytes_eq_refl (b ∷ s), back text e) refl;
    others = λ q ne. ground (arith, bytes_eq_iff q (b ∷ s));
  }

  save_valid-Saved :
      (fault : WriteFault) (v : GoError)
      → Saved yaml cfg (b ∷ s) files v (save_valid yaml formats fault cfg (b ∷ s) files v)
  save_valid-Saved fault v = elim (is_nil-cases v) [
    | inl e ↦ rw e (save_text-Saved fault (yaml.marshal cfg) refl)
    | inr (bad, e) ↦
        rw e (record { refused = λ h. refl; saved = λ h. absurd (bad h); others = λ q ne. refl })
  ]

-- `Save` with a configuration that `Validate` refuses returns its error and writes nothing. A `Save`
-- that returns nil leaves on the path a file from which `Load` returns the configuration that was
-- saved, given that the YAML library reads back what it wrote for it. No `Save` by a path that is not empty changes another path.
pub load-save :
    (yaml : Yaml) (formats : Formats) (fault : WriteFault) (cfg : Config) (path : Bytes)
    (files : Files)
    → ReadsBack yaml cfg
    → path ≢ []
    → Saved yaml cfg path files
        (validate formats (some cfg))
        (save yaml formats fault (some cfg) path files)
unfolding save
load-save yaml formats fault cfg [] files back h = absurd (h refl)
load-save yaml formats fault cfg (b ∷ path) files back h =
    save_valid-Saved yaml formats cfg b path files back fault (validate formats (some cfg))
