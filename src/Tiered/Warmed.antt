-- ===== src/Tiered/Warmed.antt =====
-- pkg/tieredcache/tieredcache.go: how `preWarmL0` ends, and what it has set in L0.
use tieredcache.Base.{
  ℕ, suc, ◌<◌, ◌≤◌, ◌≡◌, ◌^◌, refl, ap, ◌∙◌, Bool, false, List, [], ◌∷◌, ◌++◌, Option, none, some,
  length, leb, ◌==◌, ◌||◌, if◌then◌else◌, inl, inr, Bool-cases, pos, Returns, Returns-bind,
  Returns-result, arith, is_empty,
}
use tieredcache.L0.State.{Cache}
use tieredcache.L0.Shard.{IsCache}
use tieredcache.L0.Ops.Written.{SameConfig, SameConfig-trans}
use tieredcache.L0.Spec.{bad_value}
use tieredcache.L0.Spec.Steps.{set_value-Stored, set_value-bad, same_config}
use tieredcache.L1.Badger.{Badger}
use tieredcache.L1.State.{L1Cache}
use tieredcache.L1.Iterate.{Item, new_iterator, next, all_items}
use tieredcache.L1.Walked.{init_shard-Steps}
use tieredcache.Tiered.PreWarm.{
  Pair, no_loading, warm_limit, send_batch, load_loop, set_pairs, run_workers, pre_warm,
}
use tieredcache.Tiered.Loaded.{Picked, bytes_of, HasIntLengths, Loads, load_loop-Loads}

-- `Set` refuses an empty key, and a value that is larger than the limit.
abbrev pub is_bad : ℕ → Pair → Bool
is_bad limit (key, value) = is_empty key || bad_value limit value

abbrev pub failures : ℕ → List Pair → ℕ
failures limit [] = 0
failures limit (e ∷ es) = if is_bad limit e then suc (failures limit es) else failures limit es

-- A well-formed cache with the configuration of another.
abbrev pub Follows : Cache → Cache → Type 0
Follows a a' = IsCache a' × SameConfig a a'

-- After `Set` of the entries.
abbrev HasSet : List Pair → Cache → Cache × ℕ → Type 0
HasSet es a (a', errors) = Follows a a' × (errors ≡ failures a.max_payload es)

set_pairs-HasSet :
    (es : List Pair) (now : ℕ) (a : Cache)
    → IsCache a
    → a.closed ≡ false
    → Returns (set_pairs es now a) (HasSet es a)
unfolding set_pairs
set_pairs-HasSet [] now a h is_open = ((h, same_config a), refl)
set_pairs-HasSet ((key, value) ∷ es) now a h is_open =
    elim (Bool-cases (is_bad a.max_payload (key, value))) [
      | inl bad ↦
          let (err, ran, e) = set_value-bad a h is_open key value (pos 0) now bad in
          rw ran (
            Returns-bind (set_pairs es now a) _ (HasSet es a) (HasSet ((key, value) ∷ es) a)
              (set_pairs-HasSet es now a h is_open)
              (λ (a', errors) r. (r.0, ground (arith, r.1, bad, e))))
      | inr good ↦
          let (a1, ran, h1, config, _) = set_value-Stored a h is_open key value (pos 0) now good in
          rw ran (
            Returns-bind (set_pairs es now a1) _ (HasSet es a1) (HasSet ((key, value) ∷ es) a)
              (set_pairs-HasSet es now a1 h1 (config.closed ∙ is_open))
              (λ (a', errors) r. (
                (r.0.0, SameConfig-trans a a1 a' config r.0.1),
                r.1 ∙ ap (λ n. failures n es) config.max_payload ∙ rw good refl,
              )))
    ]

-- How `preWarmL0` ends: it returns if no more entries are refused than there are workers, and else waits
-- for ever.
abbrev pub Warms : ℕ → List Pair → Cache → Option Cache → Type 0
Warms workers es a (some a') = Follows a a' × (failures a.max_payload es ≤ workers)
Warms workers es a none = workers < failures a.max_payload es

run_workers-Warms :
    (order : List Pair → List Pair) (workers batch_size : ℕ) (sent : List Pair) (now : ℕ)
    (a : Cache)
    → 0 < workers
    → IsCache a
    → a.closed ≡ false
    → Returns (run_workers order workers batch_size sent now a) (Warms workers (order sent) a)
unfolding run_workers
run_workers-Warms order workers batch_size sent now a some_worker h is_open =
    let there : (workers == 0) ≡ false = ground arith in
    rw there (
      Returns-bind (set_pairs (order sent) now a) _ (HasSet (order sent) a)
        (Warms workers (order sent) a) (set_pairs-HasSet (order sent) now a h is_open)
        (λ (a', errors) r. elim (Bool-cases (leb errors workers)) [
          | inl few ↦ rw few (r.0, ground (arith, r.1))
          | inr many ↦ rw many (ground (arith, r.1))
        ]))

-- `preWarmL0`, with at least one worker, a batch size that is not negative and both tiers there, goes
-- through L1 and takes its items in order, leaving out those that cannot be read, up to one at which it
-- stops: the bytes of the values that it takes are no more than half of the memory of L0. Whatever order
-- the workers set them in, L0 stays well-formed; the call returns if no more of these entries are refused
-- by L0 (for an empty key, or a value above its limit) than there are workers, and otherwise never.
pub pre_warm-Warms :
    (badger : Badger) (items_of : badger.Db → List Item) (order : List Pair → List Pair)
    (alloc : ℕ → ℕ) (workers batch_size max_memory_mb now : ℕ) (c : L1Cache badger) (a : Cache)
    → 0 < workers
    → max_memory_mb < 2 ^ 32
    → HasIntLengths (all_items badger items_of c.shards)
    → IsCache a
    → a.closed ≡ false
    → (es : List Pair) × Picked (all_items badger items_of c.shards) es
      × (bytes_of es ≤ warm_limit max_memory_mb)
      × Returns
          (pre_warm badger items_of order alloc
            (pos workers)
            (pos batch_size)
            max_memory_mb
            now
            c
            a)
          (Warms workers (order es) a)
unfolding pre_warm send_batch next
pre_warm-Warms badger items_of order alloc workers batch_size max_memory_mb now c a some_worker
      memory ints h is_open =
    let items = all_items badger items_of c.shards in
    let (st, ran, l) =
      Returns-result
        (load_loop badger items_of (suc (length items)) (warm_limit max_memory_mb) batch_size alloc
          0 c new_iterator no_loading)
        (Loads (warm_limit max_memory_mb) items no_loading)
        (load_loop-Loads badger items_of c (warm_limit max_memory_mb) batch_size alloc (omega arith)
          (suc (length items)) 0 new_iterator items no_loading
          (init_shard-Steps badger items_of c c.shards new_iterator refl) (omega arith) ints
          (omega arith)) in
    (
      l.added,
      l.taken,
      omega (arith, l.within, l.bytes),
      rw (ran, ← l.all)
          (run_workers-Warms order workers batch_size (st.sent ++ st.batch) now a some_worker h
            is_open),
    )
