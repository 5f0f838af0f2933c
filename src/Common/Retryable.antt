-- ===== src/Common/Retryable.antt =====
-- pkg/common/errors.go: `errors.As` along the chain of wrapped errors, and whether an error may
-- be retried.
use tieredcache.Base.{ℕ, Bool, true, false, not, Bytes, Option, none, some, if◌then◌else◌}
use tieredcache.Common.Errors.{
  GoError, nil, code, tiered, config, init, storage, recovery, sink, text, wrap, ErrCode, Tier,
}

pub data Kind : Type 0 where
  tiered_kind init_kind storage_kind sink_kind : Kind

-- Is this error itself of the type that `errors.As` looks for?
abbrev pub has_kind : Kind → GoError → Bool
has_kind tiered_kind (tiered _ _ _ _ _ _) = true
has_kind init_kind (init _ _ _ _) = true
has_kind storage_kind (storage _ _ _ _) = true
has_kind sink_kind (sink _ _ _ _) = true
has_kind _ _ = false

-- `errors.As(err, &target)`: the first error of the chain that has the type.
unfoldable pub errors_as : Kind → GoError → Option GoError
errors_as k nil = none
errors_as k (tiered c m o t e r) =
    let rest = errors_as k e in
    if has_kind k (tiered c m o t e r) then some (tiered c m o t e r) else rest
errors_as k (init c o e r) =
    let rest = errors_as k e in if has_kind k (init c o e r) then some (init c o e r) else rest
errors_as k (storage t q e r) =
    let rest = errors_as k e in
    if has_kind k (storage t q e r) then some (storage t q e r) else rest
errors_as k (recovery p n e) = errors_as k e
errors_as k (sink b a e r) =
    let rest = errors_as k e in if has_kind k (sink b a e r) then some (sink b a e r) else rest
errors_as k (wrap p e) = errors_as k e
errors_as k (code _) = none
errors_as k (config _ _ _ _) = none
errors_as k (text _) = none

-- The field `Retryable`.
abbrev pub retryable_field : GoError → Bool
retryable_field (tiered _ _ _ _ _ r) = r
retryable_field (init _ _ _ r) = r
retryable_field (storage _ _ _ r) = r
retryable_field (sink _ _ _ r) = r
retryable_field _ = false

-- `IsRetryable`
unfoldable pub is_retryable : GoError → Bool
unfolding errors_as
is_retryable err = elim (errors_as tiered_kind err) [
  | some e ↦ retryable_field e
  | none ↦ elim (errors_as init_kind err) [
    | some e ↦ retryable_field e
    | none ↦ elim (errors_as storage_kind err) [
      | some e ↦ retryable_field e
      | none ↦ elim (errors_as sink_kind err) [ some e ↦ retryable_field e | none ↦ false ]
    ]
  ]
]

-- `IsCritical`
unfoldable pub is_critical : GoError → Bool
unfolding is_retryable
is_critical err = not (is_retryable err)

-- `WrapError`
unfoldable pub wrap_error : ErrCode → Bytes → Tier → Bytes → GoError → GoError
unfolding is_retryable
wrap_error c message tier component err = tiered c message component tier err (is_retryable err)

-- `AsTieredCacheError`
unfoldable pub as_tiered_cache_error : GoError → Option GoError
unfolding errors_as
as_tiered_cache_error err = errors_as tiered_kind err

-- A layer that the program may add around an error on its way up.
pub data Layer : Type 0 where
  plain : Bytes → Layer
  recovering : Bytes → ℕ → Layer
  context : ErrCode → Bytes → Tier → Bytes → Layer

abbrev pub add_layer : Layer → GoError → GoError
add_layer (plain prefix) err = wrap prefix err
add_layer (recovering phase position) err = recovery phase position err
add_layer (context c message tier component) err = wrap_error c message tier component err
