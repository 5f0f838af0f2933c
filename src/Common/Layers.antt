-- ===== src/Common/Layers.antt =====
-- pkg/common/errors.go: whether an error may be retried does not depend on the layers around it.
use tieredcache.Base.{◌≡◌, ◌≢◌, refl, List, [], ◌∷◌, some, ◌∙◌, bytes_eq}
use tieredcache.Common.Errors.{GoError, Tier, unknown, l0, l1, l2, parse_tier, tier_string}
use tieredcache.Common.Retryable.{
  is_retryable, errors_as, wrap_error, Layer, plain, recovering, context, add_layer,
}

abbrev pub add_layers : List Layer → GoError → GoError
add_layers [] err = err
add_layers (l ∷ ls) err = add_layer l (add_layers ls err)

layer-is_retryable : (l : Layer) (err : GoError) → is_retryable (add_layer l err) ≡ is_retryable err
unfolding is_retryable errors_as wrap_error add_layer
layer-is_retryable (plain p) err = refl
layer-is_retryable (recovering p n) err = refl
layer-is_retryable (context c m t k) err = refl

-- However many times an error is wrapped on its way up, by `fmt.Errorf` with `%w`, by a
-- `RecoveryError` or by `WrapError`, `IsRetryable` answers for it as for the error at the bottom.
pub add_layers-is_retryable :
    (ls : List Layer) (err : GoError) → is_retryable (add_layers ls err) ≡ is_retryable err
add_layers-is_retryable [] err = refl
add_layers-is_retryable (l ∷ ls) err =
    layer-is_retryable l (add_layers ls err) ∙ add_layers-is_retryable ls err

-- `ParseTier` reads back what `Tier.String` writes, for every tier but the unknown one.
pub parse_tier-tier_string : (t : Tier) → t ≢ unknown → parse_tier (tier_string t) ≡ some t
unfolding parse_tier tier_string bytes_eq
parse_tier-tier_string unknown h = absurd (h refl)
parse_tier-tier_string l0 h = refl
parse_tier-tier_string l1 h = refl
parse_tier-tier_string l2 h = refl
