-- ===== src/Common/Errors.antt =====
-- pkg/common/errors.go: tiers, error codes and error values.
-- Go's interface `error` with its `nil` is the type `GoError`; `fmt.Errorf` with `%w` is `wrap`,
-- without it `text`. The `Context` map of a TieredCacheError is left out: nothing reads it.
use tieredcache.Base.{
  ℕ, ◌+◌, Bool, true, false, ◌∷◌, [], ◌++◌, map, ◌&&◌, ◌||◌, leb, Bytes, str, bytes_eq, is_empty,
  decimal, if◌then◌else◌, Option, none, some,
}

pub data Tier : Type 0 where
  unknown l0 l1 l2 : Tier

-- `Tier.String`
unfoldable pub tier_string : Tier → Bytes
tier_string l0 = str "L0"
tier_string l1 = str "L1"
tier_string l2 = str "L2"
tier_string unknown = str "Unknown"

to_lower : ℕ → ℕ
to_lower c = if leb b'A' c && leb c b'Z' then c + 32 else c

-- `ParseTier`. `strings.ToLower` is read on ASCII; no other letter is lowered to one of the names.
unfoldable pub parse_tier : Bytes → Option Tier
unfolding to_lower bytes_eq
parse_tier text =
    let s = map to_lower text in
    if bytes_eq s (str "l0")
      || bytes_eq s (str "tierl0")
      || bytes_eq s (str "memory")
      || bytes_eq s (str "otter")
    then some l0
    else if bytes_eq s (str "l1")
        || bytes_eq s (str "tierl1")
        || bytes_eq s (str "ssd")
        || bytes_eq s (str "badger")
    then some l1
    else if bytes_eq s (str "l2")
        || bytes_eq s (str "tierl2")
        || bytes_eq s (str "cold")
        || bytes_eq s (str "archive")
    then some l2
    else none

pub data ErrCode : Type 0 where
  config_invalid config_missing config_validation : ErrCode
  init_failed open_failed close_failed closed : ErrCode
  not_found write_failed read_failed delete_failed corrupted : ErrCode
  evict_failed promote_failed tier_full : ErrCode
  sink_failed sink_retry sink_dead_letter : ErrCode
  recovery_failed replay_failed wal_corrupted inconsistent checkpoint_failed : ErrCode
  timeout cancelled internal : ErrCode

-- `ErrCode.Error`
unfoldable pub code_text : ErrCode → Bytes
code_text config_invalid = str "CONFIG_INVALID"
code_text config_missing = str "CONFIG_MISSING"
code_text config_validation = str "CONFIG_VALIDATION"
code_text init_failed = str "INIT_FAILED"
code_text open_failed = str "OPEN_FAILED"
code_text close_failed = str "CLOSE_FAILED"
code_text closed = str "CLOSED"
code_text not_found = str "NOT_FOUND"
code_text write_failed = str "WRITE_FAILED"
code_text read_failed = str "READ_FAILED"
code_text delete_failed = str "DELETE_FAILED"
code_text corrupted = str "CORRUPTED"
code_text evict_failed = str "EVICT_FAILED"
code_text promote_failed = str "PROMOTE_FAILED"
code_text tier_full = str "TIER_FULL"
code_text sink_failed = str "SINK_FAILED"
code_text sink_retry = str "SINK_RETRY"
code_text sink_dead_letter = str "SINK_DEAD_LETTER"
code_text recovery_failed = str "RECOVERY_FAILED"
code_text replay_failed = str "REPLAY_FAILED"
code_text wal_corrupted = str "WAL_CORRUPTED"
code_text inconsistent = str "INCONSISTENT"
code_text checkpoint_failed = str "CHECKPOINT_FAILED"
code_text timeout = str "TIMEOUT"
code_text cancelled = str "CANCELLED"
code_text internal = str "INTERNAL"

-- The `Value` of a ConfigError: the values that the program puts there. A pointer, a float or a
-- list of errors is `shown` by the text that `%v` gives for it.
pub data Value : Type 0 where
  no_value : Value
  shown : Bytes → Value
  number : ℕ → Value
  blob : Bytes → Value

pub data GoError : Type 0 where
  nil : GoError
  code : ErrCode → GoError
  tiered : ErrCode → Bytes → Bytes → Tier → GoError → Bool → GoError
  config : Bytes → Value → Bytes → Bytes → GoError
  init : Bytes → Bytes → GoError → Bool → GoError
  storage : Bytes → Bytes → GoError → Bool → GoError
  recovery : Bytes → ℕ → GoError → GoError
  sink : Bytes → Bytes → GoError → Bool → GoError
  text : Bytes → GoError
  wrap : Bytes → GoError → GoError

-- `err == nil`
abbrev pub is_nil : GoError → Bool
is_nil nil = true
is_nil _ = false

blob_items : Bytes → Bytes
blob_items [] = str "]"
blob_items (b ∷ []) = decimal b ++ str "]"
blob_items (b ∷ s) = decimal b ++ str " " ++ blob_items s

-- `%v`
value_text : Value → Bytes
unfolding blob_items
value_text no_value = str "<nil>"
value_text (shown t) = t
value_text (number n) = decimal n
value_text (blob b) = str "[" ++ blob_items b

bool_text : Bool → Bytes
bool_text true = str "true"
bool_text false = str "false"

-- `Error` of each error type; `%v` of a nil error is `<nil>`.
unfoldable pub error_text : GoError → Bytes
unfolding value_text bool_text tier_string code_text
error_text nil = str "<nil>"
error_text (code c) = code_text c
error_text (tiered c message component tier nil retryable) =
    str "["
    ++ (code_text c
        ++ (str "] "
            ++ (message
                ++ (str " (component="
                    ++ (component
                        ++ (str ", tier="
                            ++ (tier_string tier
                                ++ (str ", retryable=" ++ (bool_text retryable ++ str ")")))))))))
error_text (tiered c message component tier err retryable) =
    str "["
    ++ (code_text c
        ++ (str "] "
            ++ (message
                ++ (str ": "
                    ++ (error_text err
                        ++ (str " (component="
                            ++ (component
                                ++ (str ", tier="
                                    ++ (tier_string tier
                                        ++ (str ", retryable="
                                            ++ (bool_text retryable ++ str ")")))))))))))
error_text (config field value reason suggest) =
    str "config error: field '"
    ++ (field
        ++ (str "' = "
            ++ (value_text value
                ++ (str ": "
                    ++ (reason
                        ++ (if is_empty suggest
                            then []
                            else str " (suggest: " ++ (suggest ++ str ")")))))))
error_text (init component operation err retryable) =
    str "init error: "
    ++ (component
        ++ (str "."
            ++ (operation
                ++ (str " failed: "
                    ++ (error_text err
                        ++ (str " (retryable=" ++ (bool_text retryable ++ str ")")))))))
error_text (storage tier key err retryable) =
    str "storage error: tier="
    ++ (tier
        ++ (str ", key="
            ++ (key
                ++ (str ": "
                    ++ (error_text err
                        ++ (str " (retryable=" ++ (bool_text retryable ++ str ")")))))))
error_text (recovery phase position err) =
    str "recovery error: phase="
    ++ (phase ++ (str ", position=" ++ (decimal position ++ (str ": " ++ error_text err))))
error_text (sink backend action err retryable) =
    str "sink error: backend="
    ++ (backend
        ++ (str ", action="
            ++ (action
                ++ (str ": "
                    ++ (error_text err
                        ++ (str " (retryable=" ++ (bool_text retryable ++ str ")")))))))
error_text (text t) = t
error_text (wrap prefix err) = prefix ++ error_text err

-- `Unwrap`, of the error types that have it.
unfoldable pub unwrap : GoError → GoError
unwrap (tiered _ _ _ _ err _) = err
unwrap (init _ _ err _) = err
unwrap (storage _ _ err _) = err
unwrap (recovery _ _ err) = err
unwrap (sink _ _ err _) = err
unwrap (wrap _ err) = err
unwrap _ = nil
