-- ===== src/Tiered/Loaded.antt =====
-- pkg/tieredcache/tieredcache.go: what `preWarmL0` loads from L1.
use tieredcache.Base.{
  ℕ, zero, suc, ◌+◌, ◌<◌, ◌≤◌, ◌≡◌, ◌^◌, refl, ap, sym, ◌∙◌, subst, Bool, true, false, List, [],
  ◌∷◌, ◌++◌, Bytes, length, ltb, leb, if◌then◌else◌, inl, inr, Bool-cases, Run, done, ok, fail,
  Returns, Returns-map, add64, arith,
}
use tieredcache.Common.Errors.{GoError}
use tieredcache.L1.Badger.{Badger}
use tieredcache.L1.State.{L1Cache}
use tieredcache.L1.Iterate.{Item, L1Iterator, current, next}
use tieredcache.L1.Walked.{Steps, next-Steps, current-At}
use tieredcache.Tiered.PreWarm.{
  Pair, Loading, send_batch, batched, load_item, load_round, round_end, load_loop,
}

-- The entries are the first items that can be read, with those that cannot left out.
pub data Picked : List Item → List Pair → Type 0 where
  picked_none : (items : List Item) → Picked items []
  picked :
      (k v : Bytes) (items : List Item) (es : List Pair)
      → Picked items es
      → Picked ((k, ok v) ∷ items) ((k, v) ∷ es)
  skipped :
      (k : Bytes) (err : GoError) (items : List Item) (es : List Pair)
      → Picked items es
      → Picked ((k, fail err) ∷ items) es

abbrev pub bytes_of : List Pair → ℕ
bytes_of [] = 0
bytes_of ((k, v) ∷ es) = length v + bytes_of es

-- A length in Go is an int.
abbrev pub HasIntLengths : List Item → Type 0
HasIntLengths [] = Unit
HasIntLengths ((k, ok v) ∷ items) = (length v < 2 ^ 63) × HasIntLengths items
HasIntLengths ((k, fail err) ∷ items) = HasIntLengths items

tail_ints : (x : Item) (items : List Item) → HasIntLengths (x ∷ items) → HasIntLengths items
tail_ints (k, ok v) items h = h.1
tail_ints (k, fail err) items h = h

-- All entries so far, sent or not.
abbrev pub entries : Loading → List Pair
entries st = st.sent ++ st.batch

append_assoc : {A : Type 0} (xs ys zs : List A) → (xs ++ ys) ++ zs ≡ xs ++ (ys ++ zs)
append_assoc [] ys zs = refl
append_assoc (x ∷ xs) ys zs = ap (λ l. x ∷ l) (append_assoc xs ys zs)

append_nil : {A : Type 0} (xs : List A) → xs ++ [] ≡ xs
append_nil [] = refl
append_nil (x ∷ xs) = ap (λ l. x ∷ l) (append_nil xs)

batched-entries : (n : ℕ) (st : Loading) → entries (batched n st) ≡ entries st
unfolding batched send_batch
batched-entries n st = elim (Bool-cases (leb n (length st.batch))) [
  | inl full ↦ rw full (append_nil (entries st))
  | inr more ↦ rw more refl
]

batched-bytes_loaded : (n : ℕ) (st : Loading) → (batched n st).bytes_loaded ≡ st.bytes_loaded
unfolding batched send_batch
batched-bytes_loaded n st = ground arith

-- From a state of the loop, with these items left, to its end.
pub record Loads (limit : ℕ) (items : List Item) (st st' : Loading) : Type 0 where
  pub added : List Pair
  pub taken : Picked items added
  pub all : entries st' ≡ entries st ++ added
  pub within : st'.bytes_loaded ≤ limit
  pub bytes : st'.bytes_loaded ≡ st.bytes_loaded + bytes_of added

module _ (badger : Badger) (items_of : badger.Db → List Item) (c : L1Cache badger)
    (limit batch_size : ℕ) (alloc : ℕ → ℕ) (small : limit < 2 ^ 63) where
  stays : (items : List Item) (st : Loading) → st.bytes_loaded ≤ limit → Loads limit items st st
  stays items st h = record {
    added = [];
    taken = picked_none items;
    all = sym (append_nil (entries st));
    within = h;
    bytes = omega arith;
  }

  item_end :
      (again : Loading → Run Loading) (x : Item) (left : List Item) (st : Loading)
      → ((st' : Loading) → st'.bytes_loaded ≤ limit → Returns (again st') (Loads limit left st'))
      → HasIntLengths (x ∷ left)
      → st.bytes_loaded ≤ limit
      → Returns (round_end again st (load_item limit batch_size x st)) (Loads limit (x ∷ left) st)
  unfolding load_item
  item_end again (k, fail err) left st rest ints h =
      Returns-map (again st) (Loads limit left st) _ (rest st h) (λ st' l. record {
        added = l.added;
        taken = skipped k err left l.added l.taken;
        all = l.all;
        within = l.within;
        bytes = l.bytes;
      })
  item_end again (k, ok v) left st rest ints h =
      elim (Bool-cases (ltb limit (add64 st.bytes_loaded (length v)))) [
        | inl full ↦ rw full (stays ((k, ok v) ∷ left) st h)
        | inr more ↦
            let st0 : Loading = record st {
              bytes_loaded = add64 st.bytes_loaded (length v);
              batch = st.batch ++ (k, v) ∷ [];
            } in
            let st1 = batched batch_size st0 in
            let bytes1 : st1.bytes_loaded ≡ st.bytes_loaded + length v =
              batched-bytes_loaded batch_size st0 ∙ omega (arith, ints.0) in
            let below : st1.bytes_loaded ≤ limit =
              rw (batched-bytes_loaded batch_size st0) (ground arith) in
            rw more (
              Returns-map (again st1) (Loads limit left st1) _ (rest st1 below) (λ st' l. record {
                added = (k, v) ∷ l.added;
                taken = picked k v left l.added l.taken;
                all =
                    l.all
                    ∙ ap (λ es. es ++ l.added)
                        (batched-entries batch_size st0
                          ∙ sym (append_assoc st.sent st.batch ((k, v) ∷ [])))
                    ∙ append_assoc (entries st) ((k, v) ∷ []) l.added;
                within = l.within;
                bytes = omega (arith, l.bytes, bytes1);
              }))
      ]

  pub load_loop-Loads :
      (fuel round : ℕ) (it : L1Iterator) (todo : List Item) (st : Loading)
      → Steps badger items_of c todo (next badger items_of c it)
      → length todo < fuel
      → HasIntLengths todo
      → st.bytes_loaded ≤ limit
      → Returns
          (load_loop badger items_of fuel limit batch_size alloc round c it st)
          (Loads limit todo st)
  unfolding load_loop load_round
  load_loop-Loads zero round it todo st steps lt ints h = absurd (omega arith)
  load_loop-Loads (suc fuel) round it todo st steps lt ints h =
      by_next (load_loop-Loads fuel (suc round)) todo (next badger items_of c it) steps lt ints
    where
      by_next :
          ((it' : L1Iterator) (todo' : List Item) (st' : Loading)
            → Steps badger items_of c todo' (next badger items_of c it')
            → length todo' < fuel
            → HasIntLengths todo'
            → st'.bytes_loaded ≤ limit
            → Returns
                (load_loop badger items_of fuel limit batch_size alloc (suc round) c it' st')
                (Loads limit todo' st'))
          → (todo' : List Item) (r : Bool × L1Iterator) → Steps badger items_of c todo' r
          → length todo' < suc fuel
          → HasIntLengths todo'
          → Returns
              (if r.0
                then round_end
                    (load_loop badger items_of fuel limit batch_size alloc (suc round) c r.1)
                    st
                    (load_round limit batch_size (alloc round) (current r.1) st)
                else done st)
              (Loads limit todo' st)
      by_next rest todo' (false, it') e lt' ints' = stays todo' st h
      by_next rest todo' (true, it') (x, left, e, a) lt' ints' =
          let long : length left < fuel = omega (arith, ap length e) in
          let ints'' : HasIntLengths (x ∷ left) = subst HasIntLengths e ints' in
          let tail : HasIntLengths left = tail_ints x left ints'' in
          rw (current-At badger items_of c it' x left a, e)
            (elim (Bool-cases (ltb limit (alloc round))) [
              | inl full ↦ rw full (stays (x ∷ left) st h)
              | inr free ↦ rw free (
                  item_end (load_loop badger items_of fuel limit batch_size alloc (suc round) c it')
                    x left st
                    (λ st' k.
                      rest it' left st' (next-Steps badger items_of c it' x left a) long tail k)
                    ints'' h)
            ])
