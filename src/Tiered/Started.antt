-- ===== src/Tiered/Started.antt =====
-- pkg/tieredcache/tieredcache.go: a cache that `New` has accepted and `Initialize` has started.
use tieredcache.Base.{
  subst, length, none, inr, Option, ◌≤◌, ◌<◌, ◌∙◌, Bool-cases, ℕ, Bool, ◌≡◌, refl, true, false, inl,
  List, some, arith, Result, ok, fail, Returns, Returns-bind,
}
use tieredcache.Common.Errors.{GoError, nil}
use tieredcache.Config.{L0Config, TieredCacheConfig}
use tieredcache.Config as Configuration
use tieredcache.Config.Validate.{Formats, validate}
use tieredcache.Config.Valid.{IsValidL0, validate_iff}
use tieredcache.L0.State.{Cache, new, build}
use tieredcache.L0.Ops.Fresh.{new-IsCache}
use tieredcache.L1.Badger.{Badger}
use tieredcache.L1.State.{L1Cache}
use tieredcache.L1.Open.{System, l1_new}
use tieredcache.L1.Opened.{l1_new-IsNew}
use tieredcache.Replay.Entry.{WalEntry, Codec}
use tieredcache.Replay.Manager.{Manager, ReplayError, recover}
use tieredcache.Tiered.State.{TieredCache}
use tieredcache.Tiered.Calls.{IsServing}
use tieredcache.L0.Spec.Steps.{view}
use tieredcache.Tiered.Applied.{Ready, HoldsAfter, on_entries, apply_entries-Holds}
use tieredcache.Replay.Pool.{Pool, Leads, start}
use tieredcache.Replay.Pool.Counts.{failures}
use tieredcache.Replay.Pool.Stuck.{Stuck}
use tieredcache.Replay.Pool.Room.{Stuck-many}
use tieredcache.Tiered.Start.{
  Schedule, Recovered, begun, l0_config, apply_entries, recovered, perform_recovery, with_l1,
  with_l0, initialize,
}

-- The workers of `Recover` can come to wait for ever over these entries, of which so many fail: steps of
-- its goroutines lead from the start to a full channel and a worker that has an error to send.
pub record Waits (es : List WalEntry) (failed : ℕ) : Type 0 where
  pub apply : WalEntry → Option GoError
  pub workers : ℕ
  pub pool : Pool GoError
  pub worker : ℕ
  pub err : GoError
  pub reached : Leads apply (start workers es) pool
  pub stuck : Stuck worker err pool
  pub counted : failures apply es ≡ failed

-- The workers apply as many entries as there are, and wait for ever only where they can.
pub record IsSchedule (schedule : Schedule) : Type 0 where
  pub each : (es : List WalEntry) → length (schedule.order es) ≡ length es
  pub waits : (es : List WalEntry) (failed : ℕ) → schedule.blocks es failed ≡ true → Waits es failed

-- The log holds more entries to recover than may all fail.
abbrev pub HasMany : Result ReplayError (List WalEntry × Manager) → Type 0
HasMany (ok (es, m)) = 5 < length es
HasMany (fail err) = ⊥

Waits-many :
    (es : List WalEntry) (failed : ℕ) → failed ≤ length es → Waits es failed → 5 < length es
Waits-many es failed h w =
    omega
      (arith, h, Stuck-many w.apply w.workers es w.worker w.err w.pool w.reached w.stuck, w.counted)

module _ {badger : Badger} where
  -- What is left of a recovery: the tiers. One that never ends had many entries.
  abbrev pub Left : ℕ → Result ReplayError (List WalEntry × Manager) → Recovered badger → Type 0
  Left limit r none = HasMany r
  Left limit r (some (a, b, m)) = Ready limit (a, b)

  module _ (limit : ℕ) (now : ℕ) (schedule : Schedule) (real : IsSchedule schedule) where
    recovered-Ready :
        (a : Cache) (b : L1Cache badger) (m : Manager)
        (r : Result ReplayError (List WalEntry × Manager))
        → Ready limit (a, b)
        → Returns (recovered schedule now a b m r) (Left limit r)
    unfolding recovered
    recovered-Ready a b m (fail err) h = h
    recovered-Ready a b m (ok (es, m')) h =
        Returns-bind (apply_entries (schedule.order es) now a b) _
          (HoldsAfter limit (on_entries limit (schedule.order es) (view a))
            (length (schedule.order es)))
          (Left limit (ok (es, m')))
          (apply_entries-Holds limit now (schedule.order es) (view a) a b h (λ q. inl (λ t. refl)))
          (λ (a', b', failed) h'. elim (Bool-cases (schedule.blocks es failed)) [
            | inl stuck ↦ rw stuck (
                Waits-many es failed (subst (λ n. failed ≤ n) (real.each es) h'.1)
                  (real.waits es failed stuck))
            | inr ends ↦ rw ends h'.0.0
          ])

    perform_recovery-Ready :
        (codec : Codec) (verify : Bool) (a : Cache) (b : L1Cache badger) (m : Manager)
        → Ready limit (a, b)
        → Returns (perform_recovery codec schedule now verify a b m) (Left limit (recover codec m))
    unfolding perform_recovery
    perform_recovery-Ready codec true a b m h = recovered-Ready a b m (recover codec m) h
    perform_recovery-Ready codec false a b m h = h

-- A configuration that `Validate` accepts has an L0.
new_l0-ok :
    (cfg : L0Config) → IsValidL0 cfg → new (some (l0_config cfg)) ≡ ok (build (l0_config cfg))
unfolding new l0_config
new_l0-ok cfg h = ground (arith, h.memory, h.payload)

build-limit : (cfg : L0Config) → (build (l0_config cfg)).max_payload ≡ cfg.max_payload_bytes
unfolding build l0_config
build-limit cfg = refl

module _ {badger : Badger} where
  -- What `Initialize` is to reach: no error, and a cache that serves, with the limit of the
  -- configuration on the size of a value.
  unfoldable pub IsStarted :
      TieredCacheConfig
      → Result ReplayError (List WalEntry × Manager)
      → Option (TieredCache badger × GoError)
      → Type 0
  IsStarted cfg r none = HasMany r
  IsStarted cfg r (some (c, err)) =
      (err ≡ nil)
      × (a : Cache) × (b : L1Cache badger) × IsServing c a b
      × (a.max_payload ≡ cfg.l0.max_payload_bytes)

  begun-IsStarted :
      (limit : ℕ) (cfg : TieredCacheConfig) (c : TieredCache badger)
      (r : Result ReplayError (List WalEntry × Manager)) (x : Recovered badger)
      → c.closed ≡ false
      → limit ≡ cfg.l0.max_payload_bytes
      → Left limit r x
      → IsStarted cfg r (begun cfg c x)
  unfolding IsStarted
  begun-IsStarted limit cfg c r none is_open e h = h
  begun-IsStarted limit cfg c r (some (a, b, m)) is_open e h = (
    refl,
    a,
    b,
    record { has_l0 = refl; has_l1 = refl; started = refl; not_closed = is_open; ready = h.0 },
    h.1 ∙ e,
  )

  with_l1-IsStarted :
      (codec : Codec) (schedule : Schedule) (real : IsSchedule schedule) (now : ℕ)
      (cfg : TieredCacheConfig) (c : TieredCache badger) (m : Manager) (a : Cache)
      (b : L1Cache badger)
      → c.closed ≡ false
      → Ready cfg.l0.max_payload_bytes (a, b)
      → Returns (with_l1 codec schedule now cfg c m a (ok b)) (IsStarted cfg (recover codec m))
  unfolding with_l1
  with_l1-IsStarted codec schedule real now cfg c m a b is_open h =
      Returns-bind (perform_recovery codec schedule now cfg.replay.verify_on_recovery a b m) _
        (Left cfg.l0.max_payload_bytes (recover codec m)) (IsStarted cfg (recover codec m))
        (perform_recovery-Ready cfg.l0.max_payload_bytes now schedule real codec
          cfg.replay.verify_on_recovery a b m h)
        (λ x h'. begun-IsStarted cfg.l0.max_payload_bytes cfg c (recover codec m) x is_open refl h')

  -- `Initialize` of a cache that is not closed, with a configuration that `Validate` accepts and an L1
  -- that can be opened: it does not panic, and if the log has at most five entries to recover, whatever they
  -- say and whatever the database answers, it returns. Whenever it returns, it does so with no error and
  -- with a cache whose tiers are well-formed and open, and L0 limited to the values of the size that the
  -- configuration says. The workers of the recovery apply its entries in any order, and wait for ever only
  -- where steps of its goroutines (Replay/Pool) lead to a worker with an error and no room for it.
  pub initialize-IsStarted :
      (system : System badger) (codec : Codec) (formats : Formats) (schedule : Schedule) (now : ℕ)
      (cfg : Configuration.Config) (c : TieredCache badger) (m : Manager) (b : L1Cache badger)
      → IsSchedule schedule
      → validate formats (some cfg) ≡ nil
      → c.closed ≡ false
      → l1_new system cfg.tieredcache.l1 ≡ ok b
      → Returns
          (initialize system codec schedule now cfg.tieredcache c m)
          (IsStarted cfg.tieredcache (recover codec m))
  unfolding initialize with_l0
  initialize-IsStarted system codec formats schedule now cfg c m b real accepted is_open opened =
      let valid = (validate_iff formats cfg).0 accepted in
      let made = new_l0-ok cfg.tieredcache.l0 valid.l0 in
      let h = new-IsCache _ _ made in
      let k = l1_new-IsNew system cfg.tieredcache.l1 b opened in
      let a = build (l0_config cfg.tieredcache.l0) in
      let same : initialize system codec schedule now cfg.tieredcache c m
          ≡ with_l1 codec schedule now cfg.tieredcache c m a (ok b) =
        simp (is_open, made, opened) in
      rw same (
        with_l1-IsStarted codec schedule real now cfg.tieredcache c m a b is_open (
          record { valid0 = h.0; open0 = h.1; valid1 = k.valid; open1 = k.is_open },
          build-limit cfg.tieredcache.l0,
        ))
