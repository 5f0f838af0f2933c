-- ===== src/Config/Machine.antt =====
-- pkg/config/config.go: on which machines `DefaultConfig` passes `Validate`.
use tieredcache.Base.{ℕ, ◌<◌, ◌≤◌, ◌^◌, ◌≡◌, refl, ◌↔◌, inl, inr, some, arith, float_ltb}
use tieredcache.Common.Errors.{nil}
use tieredcache.Config.Default.{
  default_config, default_l0, default_l1, default_l2, default_replay, default_logging, counted_cpus,
}
use tieredcache.Config.Validate.{Formats, validate}
use tieredcache.Config.Valid.{
  IsValid, IsValidL0, IsValidL1, IsValidL2, IsValidReplay, IsValidLogging, OneOf, IsWithin,
  validate_iff,
}

module _ (n : ℕ) (some_core : 0 < n) (small : n ≤ 128) where
  default_l0-IsValid : IsValidL0 (default_l0 n)
  unfolding default_l0 OneOf
  default_l0-IsValid = record {
    memory = (omega arith, omega arith);
    payload = (omega arith, omega arith);
    unit = omega arith;
    shards = (omega arith, omega arith);
    policy = inl refl;
    interval = omega arith;
  }

  default_l1-IsValid : IsValidL1 (default_l1 n)
  unfolding default_l1 OneOf IsWithin float_ltb
  default_l1-IsValid = record {
    capacity = inr (refl, refl);
    shards = (omega arith, omega arith);
    path = λ e. cc;
    mode = inl refl;
    interval = inl (λ e. cc);
    compressed = inl refl;
  }

default_l2-IsValid : IsValidL2 default_l2
unfolding default_l2 IsWithin float_ltb
default_l2-IsValid = record {
  kafka = λ _ _. record { brokers = λ e. cc; topic = λ e. cc };
  minio = λ _ e. absurd (cc);
  postgres = λ _ e. absurd (cc);
  tiering =
      λ _. record { first = inr (refl, refl); second = inr (refl, refl); interval = omega arith };
}

default_replay-IsValid : IsValidReplay default_replay
unfolding default_replay
default_replay-IsValid = record {
  path = λ e. cc;
  workers = (omega arith, omega arith);
  interval = omega arith;
  checkpoints = inr (λ e. cc);
  time = omega arith;
}

default_logging-IsValid : IsValidLogging default_logging
unfolding default_logging OneOf
default_logging-IsValid = record {
  level = inr (inl refl);
  format = inl refl;
  output = inl refl;
  path = inl (λ e. cc);
}

default_config-IsValid : (n : ℕ) → n ≤ 128 → IsValid (default_config n)
unfolding default_config
default_config-IsValid n small =
    let least : 0 < counted_cpus n = ground arith in
    let most : counted_cpus n ≤ 128 = ground arith in
    record {
      l0 = default_l0-IsValid (counted_cpus n) least most;
      l1 = default_l1-IsValid (counted_cpus n) least most;
      l2 = default_l2-IsValid;
      replay = default_replay-IsValid;
      logging = default_logging-IsValid;
    }

IsValid-small : (n : ℕ) → n < 2 ^ 32 → IsValid (default_config n) → n ≤ 128
unfolding default_config default_l1
IsValid-small n fits h = ground (arith, h.l1.shards)

-- The default configuration passes `Validate` exactly on machines of at most 128 cores (the number of
-- cores below 2^32): on a larger one it has more shards than `Validate` allows.
pub validate-default_config :
    (formats : Formats) (n : ℕ)
    → n < 2 ^ 32
    → (validate formats (some (default_config n)) ≡ nil) ↔ (n ≤ 128)
validate-default_config formats n fits =
    let (only, if_valid) = validate_iff formats (default_config n) in
    (λ e. IsValid-small n fits (only e), λ small. if_valid (default_config-IsValid n small))
