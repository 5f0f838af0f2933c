-- ===== src/Tiered/PreWarm.antt =====
-- pkg/tieredcache/tieredcache.go: `preWarmL0`, which fills L0 from L1 in the background. The memory in
-- use that the runtime reports in each round, and the order in which the workers set the entries that
-- they are sent, are parameters.
use tieredcache.Base.{
  ℕ, zero, suc, ◌+◌, ◌*◌, Bool, true, false, List, [], ◌∷◌, ◌++◌, Option, none, some, Bytes, length,
  ltb, leb, ◌==◌, ◌||◌, if◌then◌else◌, ℤ, pos, negsuc, Run, done, panic, no_fuel, ◌>>=◌, ok, fail,
  add64,
}
use tieredcache.Common.Errors.{is_nil}
use tieredcache.L0.State.{Cache}
use tieredcache.L0.Ops.{set_value}
use tieredcache.L1.Badger.{Badger}
use tieredcache.L1.State.{L1Cache}
use tieredcache.L1.Iterate.{Item, L1Iterator, new_iterator, current, next, all_items}
use tieredcache.Tiered.Start.{count_of}

-- `l1Entry`
abbrev pub Pair : Type 0
Pair = Bytes × Bytes

-- The state of the loop over L1: `sent` is what went to the channel of the workers, in its order.
pub record Loading : Type 0 where
  pub bytes_loaded : ℕ
  pub count : ℕ
  pub batch : List Pair
  pub sent : List Pair

abbrev pub no_loading : Loading
no_loading = record { bytes_loaded = 0; count = 0; batch = []; sent = [] }

-- Half of the memory of L0. The product with 0.5 in floating point is exact for a uint32.
abbrev pub warm_limit : ℕ → ℕ
warm_limit max_memory_mb = max_memory_mb * 524288

unfoldable pub send_batch : Loading → Loading
send_batch st = record st {
  count = st.count + length st.batch;
  batch = [];
  sent = st.sent ++ st.batch;
}

unfoldable pub batched : ℕ → Loading → Loading
batched batch_size st = if leb batch_size (length st.batch) then send_batch st else st

-- An item, when the memory in use is within the limit; `none` leaves the loop.
unfoldable pub load_item : ℕ → ℕ → Item → Loading → Option Loading
load_item limit batch_size (key, fail err) st = some st
load_item limit batch_size (key, ok value) st =
    if ltb limit (add64 st.bytes_loaded (length value))
    then none
    else some (
        batched batch_size (record st {
          bytes_loaded = add64 st.bytes_loaded (length value);
          batch = st.batch ++ (key, value) ∷ [];
        }))

-- A round, on the memory in use.
unfoldable pub load_round : ℕ → ℕ → ℕ → Option Item → Loading → Option Loading
load_round limit batch_size alloc none st = some st
load_round limit batch_size alloc (some x) st =
    if ltb limit alloc then none else load_item limit batch_size x st

abbrev pub round_end : (Loading → Run Loading) → Loading → Option Loading → Run Loading
round_end again st none = done st
round_end again st (some st') = again st'

-- The `Set` of the workers, with the number of those that fail.
unfoldable pub set_pairs : List Pair → ℕ → Cache → Run (Cache × ℕ)
set_pairs [] now a = done (a, 0)
set_pairs ((key, value) ∷ es) now a = do
  (a', err) ← set_value a key value (pos 0) now
  (a'', errors) ← set_pairs es now a'
  done (a'', if is_nil err then errors else suc errors)

-- What the workers do with the entries. A worker keeps its error in a channel with room for one from
-- each, which is read only after all of them have ended: with an error more than that a worker waits for
-- ever, and `preWarmL0` with it, which is `none`. With no workers it waits on a full channel.
unfoldable pub run_workers :
    (List Pair → List Pair) → ℕ → ℕ → List Pair → ℕ → Cache → Run (Option Cache)
run_workers order workers batch_size sent now a =
    if workers == 0 then done (if leb (length sent) batch_size then some a else none) else do
      (a', errors) ← set_pairs (order sent) now a
      done (if leb errors workers then some a' else none)

abbrev pub is_negative : ℤ → Bool
is_negative (pos n) = false
is_negative (negsuc n) = true

module _ (badger : Badger) (items_of : badger.Db → List Item) where
  -- The loop over the iterator, from a round on.
  unfoldable pub load_loop :
      ℕ → ℕ → ℕ → (ℕ → ℕ) → ℕ → L1Cache badger → L1Iterator → Loading → Run Loading
  load_loop zero limit batch_size alloc round c it st = no_fuel
  load_loop (suc fuel) limit batch_size alloc round c it st =
      let (more, it') = next badger items_of c it in
      let again = load_loop fuel limit batch_size alloc (suc round) c it' in
      let rest = round_end again st (load_round limit batch_size (alloc round) (current it') st) in
      if more then rest else done st

  -- `preWarmL0` of a cache with both tiers, when nothing closes it meanwhile. A channel of negative
  -- size panics.
  unfoldable pub pre_warm :
      (List Pair → List Pair)
      → (ℕ → ℕ)
      → ℤ
      → ℤ
      → ℕ
      → ℕ
      → L1Cache badger
      → Cache
      → Run (Option Cache)
  pre_warm order alloc workers batch_size max_memory_mb now c a =
      if is_negative workers || is_negative batch_size then panic else do
        st ←
            load_loop (suc (length (all_items badger items_of c.shards))) (warm_limit max_memory_mb)
              (count_of batch_size) alloc 0 c new_iterator no_loading
        run_workers order (count_of workers) (count_of batch_size) (send_batch st).sent now a
