-- ===== src/Config/Tests.antt =====
-- Tests of the configuration, and instances of its theorems.
use tieredcache.Base.{◌≡◌, refl, ◌↔◌, ◌⊎◌, ◌≤◌, [], some, bytes_eq, float_leb, str, ok, fail, arith}
use tieredcache.Common.Errors.{GoError, nil}
use tieredcache.Config.{Config}
use tieredcache.Config.Default.{
  default_config, default_l0, default_l1, default_l2, default_replay, default_logging,
}
use tieredcache.Config.Validate.{Formats, validate}
use tieredcache.Config.Valid.{IsValid, validate_iff}
use tieredcache.Config.Machine.{validate-default_config}
use tieredcache.Config.Load.{
  Yaml, Files, contents, no_fault, load, load_or_default, save, Saved, load-save,
  load_or_default-ok,
}

abbrev formats_a : Formats
formats_a = record { float_text = λ x. []; config_text = λ c. [] }

abbrev yaml_a : Yaml
yaml_a = record { marshal = λ cfg. ok (str "x"); unmarshal = λ text. ok (default_config 8) }

abbrev files_a : Files
files_a path = contents (str "other")

validate_iff_example :
    (validate formats_a (some (default_config 200)) ≡ nil) ↔ IsValid (default_config 200)
validate_iff_example = validate_iff formats_a (default_config 200)

validate-default_config_example :
    (validate formats_a (some (default_config 200)) ≡ nil) ↔ (200 ≤ 128)
validate-default_config_example = validate-default_config formats_a 200 (omega arith)

load_or_default-ok_example :
    (cfg : Config) × (load_or_default 8 yaml_a files_a (str "a") ≡ ok cfg)
    × ((load yaml_a files_a (str "a") ≡ ok cfg)
        ⊎ (((err : GoError) × (load yaml_a files_a (str "a") ≡ fail err))
            × (cfg ≡ default_config 8)))
load_or_default-ok_example = load_or_default-ok 8 yaml_a files_a (str "a")

load-save_example :
    Saved yaml_a
      (default_config 8)
      (str "a")
      files_a
      (validate formats_a (some (default_config 8)))
      (save yaml_a formats_a no_fault (some (default_config 8)) (str "a") files_a)
load-save_example =
    load-save yaml_a formats_a no_fault (default_config 8) (str "a") files_a (λ text e. refl)
      (λ e. cc)

-- A capacity that is NaN passes.
nan_passes :
    validate formats_a (
      some (record (default_config 8) {
        tieredcache = record ((default_config 8).tieredcache) {
          l1 = record ((default_config 8).tieredcache.l1) { max_capacity_gb = 0x7FF8000000000001 };
        };
      }))
    ≡ nil
unfolding validate default_config default_l0 default_l1 default_l2 default_replay default_logging
    bytes_eq float_leb
nan_passes = refl
