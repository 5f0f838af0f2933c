-- ===== src/Tiered/State.antt =====
-- pkg/tieredcache/tieredcache.go: the state, and the calls of a program on it.
use tieredcache.Base.{
  ℕ, Bool, false, List, [], ◌∷◌, Option, none, some, Bytes, str, ltb, length, if◌then◌else◌, lookup,
  Run, done, ◌>>=◌, Result, ok, fail, ℤ, pos, not, decimal, ◌++◌,
}
use tieredcache.Common.Errors.{
  GoError, nil, code, config, init, text, closed, not_found, init_failed, number,
}
use tieredcache.L0.State.{Cache}
use tieredcache.L0.Ops.{get, set_value, delete}
use tieredcache.L1.Badger.{Badger}
use tieredcache.L1.State.{L1Cache, l1_get, l1_set, l1_delete, should_use_wal}
use tieredcache.Replay.Entry.{WalEntry, Time, Codec, Operation, op_set, op_delete}
use tieredcache.Replay.Manager.{Manager, write}

-- What the sinks of L2 answer to a read, by name; `none` is an error.
abbrev pub Sinks : Type 0
Sinks = List (Bytes × (Bytes → Option Bytes))

-- `TieredCache`, with the promotions that `Get` has started as goroutines.
pub record TieredCache (badger : Badger) : Type 0 where
  pub l0 : Option Cache
  pub l1 : Option (L1Cache badger)
  pub l2 : Option Sinks
  pub recovery : Option Manager
  pub max_payload_bytes : ℕ
  pub initialized : Bool
  pub closed : Bool
  pub promotions : List (Bytes × Bytes)

-- The errors of the guards of a call.
abbrev pub not_initialized : Bytes → GoError
not_initialized operation = init (str "tieredcache") operation (code init_failed) false

abbrev pub is_closed : Bytes → GoError
is_closed operation = init (str "tieredcache") operation (code closed) false

abbrev pub too_large : ℕ → Bytes → GoError
too_large limit value =
    config (str "value") (number (length value)) (str "exceeds max payload size " ++ decimal limit)
      []

abbrev pub value_of : Result GoError Bytes → Option Bytes
value_of (ok v) = some v
value_of (fail e) = none

-- The entry that `Set` and `Delete` give to the log.
abbrev pub wal_entry : Operation → Bytes → Bytes → WalEntry
wal_entry o key value = record {
  sequence = 0;
  timestamp = record { wall = []; monotonic = none };
  operation = o;
  key = key;
  value = value;
  metadata = [];
  tier = 0;
  checksum = 0;
}

-- An error of the second call replaces one of the first.
abbrev pub last_error : GoError → GoError → GoError
last_error first nil = first
last_error first e = e

-- The tiers as each call uses them; a tier that is not there does nothing.
unfoldable pub try_l0 : Option Cache → Bytes → ℕ → Run (Option Cache × Option Bytes)
try_l0 none key now = done (none, none)
try_l0 (some c) key now = do (c', r) ← get c key now; done (some c', value_of r)

unfoldable pub set_l0 : Option Cache → Bytes → Bytes → ℤ → ℕ → Run (Option Cache × GoError)
set_l0 none key value ttl now = done (none, nil)
set_l0 (some c) key value ttl now = do
  (c', err) ← set_value c key value ttl now
  done (some c', err)

unfoldable pub delete_l0 : Option Cache → Bytes → Run (Option Cache × GoError)
delete_l0 none key = done (none, nil)
delete_l0 (some c) key = do (c', err) ← delete c key; done (some c', err)

-- `GetSink("default")` and its `Read`
unfoldable pub try_l2 : Option Sinks → Bytes → Option Bytes
try_l2 none key = none
try_l2 (some sinks) key = elim (lookup (str "default") sinks) [ none ↦ none | some sink ↦ sink key ]

unfoldable pub l2_result : Option Bytes → Result GoError Bytes
l2_result (some v) = ok v
l2_result none = fail (code not_found)

module _ {badger : Badger} where
  unfoldable pub try_l1 :
      Option (L1Cache badger) → Bytes → ℕ → Run (Option (L1Cache badger) × Option Bytes)
  try_l1 none key now = done (none, none)
  try_l1 (some c) key now = do (c', r) ← l1_get c key now; done (some c', value_of r)

  unfoldable pub set_l1 :
      Option (L1Cache badger) → Bytes → Bytes → ℤ → ℕ → Run (Option (L1Cache badger) × GoError)
  set_l1 none key value ttl now = done (none, nil)
  set_l1 (some c) key value ttl now = do (c', err) ← l1_set c key value ttl now; done (some c', err)

  unfoldable pub delete_l1 :
      Option (L1Cache badger) → Bytes → Run (Option (L1Cache badger) × GoError)
  delete_l1 none key = done (none, nil)
  delete_l1 (some c) key = do (c', err) ← l1_delete c key; done (some c', err)

  -- `Get` after L1: a value found there is promoted to L0 by a goroutine.
  unfoldable pub after_l1 :
      TieredCache badger → Bytes → Option Bytes → TieredCache badger × Result GoError Bytes
  after_l1 c key none = (c, l2_result (try_l2 c.l2 key))
  after_l1 c key (some v) =
      (elim c.l0 [ none ↦ c | some _ ↦ record c { promotions = (key, v) ∷ c.promotions } ], ok v)

  -- `Get` after L0
  unfoldable pub after_l0 :
      TieredCache badger
      → Bytes
      → ℕ
      → Option Bytes
      → Run (TieredCache badger × Result GoError Bytes)
  after_l0 c key now (some v) = done (c, ok v)
  after_l0 c key now none = do
    (l1', v) ← try_l1 c.l1 key now
    done (after_l1 (record c { l1 = l1' }) key v)

  -- `Get`
  unfoldable pub tiered_get :
      TieredCache badger → Bytes → ℕ → Run (TieredCache badger × Result GoError Bytes)
  tiered_get c key now =
      if not c.initialized
      then done (c, fail (not_initialized (str "get")))
      else if c.closed
      then done (c, fail (is_closed (str "get")))
      else do (l0', v) ← try_l0 c.l0 key now; after_l0 (record c { l0 = l0' }) key now v

  -- The write of an entry to the log, if there is a log and L1 wants it.
  unfoldable pub log_entry :
      Codec → Time → Option ℕ → WalEntry → Option (L1Cache badger) → Option Manager → Option Manager
  log_entry codec time fault e (some l1) (some m) =
      if should_use_wal l1 then some (write codec time fault e m).1 else some m
  log_entry codec time fault e none m = m
  log_entry codec time fault e (some l1) none = none

  -- `Set`. An error of L1 or of the log is printed and dropped.
  unfoldable pub tiered_set :
      Codec
      → Time
      → Option ℕ
      → TieredCache badger
      → Bytes
      → Bytes
      → ℤ
      → ℕ
      → Run (TieredCache badger × GoError)
  tiered_set codec time fault c key value ttl now =
      if not c.initialized
      then done (c, not_initialized (str "set"))
      else if c.closed
      then done (c, is_closed (str "set"))
      else if ltb c.max_payload_bytes (length value)
      then done (c, too_large c.max_payload_bytes value)
      else do
        (l0', err) ← set_l0 c.l0 key value ttl now
        (l1', _) ← set_l1 c.l1 key value ttl now
        let m = log_entry codec time fault (wal_entry op_set key value) l1' c.recovery
        done (record c { l0 = l0'; l1 = l1'; recovery = m }, err)

  -- `Delete`
  unfoldable pub tiered_delete :
      Codec → Time → Option ℕ → TieredCache badger → Bytes → Run (TieredCache badger × GoError)
  tiered_delete codec time fault c key =
      if not c.initialized
      then done (c, not_initialized (str "delete"))
      else if c.closed
      then done (c, is_closed (str "delete"))
      else do
        (l0', err) ← delete_l0 c.l0 key
        (l1', err') ← delete_l1 c.l1 key
        let m = log_entry codec time fault (wal_entry op_delete key []) l1' c.recovery
        done (record c { l0 = l0'; l1 = l1'; recovery = m }, last_error err err')

  -- `SetToL1`
  unfoldable pub set_to_l1 :
      TieredCache badger → Bytes → Bytes → ℤ → ℕ → Run (TieredCache badger × GoError)
  set_to_l1 c key value ttl now =
      if not c.initialized
      then done (c, not_initialized (str "set_to_l1"))
      else if c.closed
      then done (c, is_closed (str "set_to_l1"))
      else elim c.l1 [
        | none ↦ done (c, text (str "L1 not initialized"))
        | some l1 ↦ do
          (l1', err) ← l1_set l1 key value ttl now
          done (record c { l1 = some l1' }, err)
      ]

  -- `GetFromL1`
  unfoldable pub get_from_l1 :
      TieredCache badger → Bytes → ℕ → Run (TieredCache badger × Result GoError Bytes)
  get_from_l1 c key now =
      if not c.initialized
      then done (c, fail (not_initialized (str "get_from_l1")))
      else if c.closed
      then done (c, fail (is_closed (str "get_from_l1")))
      else elim c.l1 [
        | none ↦ done (c, fail (text (str "L1 not initialized")))
        | some l1 ↦ do (l1', r) ← l1_get l1 key now; done (record c { l1 = some l1' }, r)
      ]

  -- A goroutine of `Get` runs: the one that was started last of those that wait. Its error is dropped.
  unfoldable pub run_promotion :
      TieredCache badger → List (Bytes × Bytes) → ℕ → Run (TieredCache badger)
  run_promotion c [] now = done c
  run_promotion c ((key, v) ∷ rest) now = do
    (l0', _) ← set_l0 c.l0 key v (pos 0) now
    done (record c { l0 = l0'; promotions = rest })
