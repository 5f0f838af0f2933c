-- ===== src/L1/Walked.antt =====
-- pkg/l1/l1_badger.go: what a loop over the iterator sees.
use tieredcache.Base.{
  ℕ, zero, suc, ◌<◌, ◌≡◌, refl, ap, sym, Bool, true, false, List, [], ◌∷◌, ◌++◌, some, length, drop,
  arith, if◌then◌else◌,
}
use tieredcache.L1.Badger.{Badger}
use tieredcache.L1.State.{L1Cache}
use tieredcache.L1.Iterate.{
  Item, L1Iterator, new_iterator, current, init_shard, next, moved, walk, seen, all_items,
}

drop-cons :
    {A : Type 0} (n : ℕ) (xs : List A) (y : A) (ys : List A)
    → drop n xs ≡ y ∷ ys
    → drop (suc n) xs ≡ ys
drop-cons zero [] y ys e = cc
drop-cons zero (x ∷ xs) y ys e = cc
drop-cons (suc n) [] y ys e = cc
drop-cons (suc n) (x ∷ xs) y ys e = drop-cons n xs y ys e

module _ (badger : Badger) (items_of : badger.Db → List Item) (c : L1Cache badger) where
  -- The iterator stands at an item, with others left.
  pub record At (it : L1Iterator) (x : Item) (left : List Item) : Type 0 where
    pub behind : List Item
    pub at : it.rest ≡ some (x ∷ behind)
    pub valid : it.valid ≡ true
    pub all : left ≡ behind ++ all_items badger items_of (drop (suc it.shard) c.shards)

  -- A `Next`, with the items that are still to be seen before it.
  abbrev pub Steps : List Item → Bool × L1Iterator → Type 0
  Steps todo (false, it) = todo ≡ []
  Steps todo (true, it) = (x : Item) × (left : List Item) × (todo ≡ x ∷ left) × At it x left

  pub init_shard-Steps :
      (dbs : List badger.Db) (it : L1Iterator)
      → drop it.shard c.shards ≡ dbs
      → Steps (all_items badger items_of dbs) (init_shard badger items_of dbs it)
  unfolding init_shard
  init_shard-Steps [] it e = refl
  init_shard-Steps (db ∷ dbs) it e = by_items (items_of db) (
      init_shard-Steps dbs (record it { rest = some []; shard = suc it.shard })
        (drop-cons it.shard c.shards db dbs e))
    where
      by_items :
          (items : List Item)
          → Steps
              (all_items badger items_of dbs)
              (init_shard badger items_of dbs (record it { rest = some []; shard = suc it.shard }))
          → Steps (items ++ all_items badger items_of dbs) (elim items as (λ _. Bool × L1Iterator) [
            | x ∷ items ↦ (true, record it { rest = some (x ∷ items); valid = true })
            | [] ↦
                init_shard badger items_of dbs (record it { rest = some []; shard = suc it.shard })
          ])
      by_items (x ∷ items) again = (
        x,
        items ++ all_items badger items_of dbs,
        refl,
        record {
          behind = items;
          at = refl;
          valid = refl;
          all =
              ap (λ ds. items ++ all_items badger items_of ds)
                (sym (drop-cons it.shard c.shards db dbs e));
        },
      )
      by_items [] again = again

  pub next-Steps :
      (it : L1Iterator) (x : Item) (left : List Item)
      → At it x left
      → Steps left (next badger items_of c it)
  unfolding next
  next-Steps it x left a = rw (a.at, a.all) (by_behind a.behind)
    where
      by_behind :
          (items : List Item)
          → Steps
              (items ++ all_items badger items_of (drop (suc it.shard) c.shards))
              (moved badger items_of c it items)
      by_behind [] =
          init_shard-Steps (drop (suc it.shard) c.shards)
            (record it { rest = some []; shard = suc it.shard }) refl
      by_behind (y ∷ items) = (
        y,
        items ++ all_items badger items_of (drop (suc it.shard) c.shards),
        refl,
        record { behind = items; at = refl; valid = refl; all = refl },
      )

  pub current-At :
      (it : L1Iterator) (x : Item) (left : List Item) → At it x left → current it ≡ some x
  unfolding current
  current-At it x left a = rw (a.valid, a.at) refl

  walk-Steps :
      (fuel : ℕ) (it : L1Iterator) (todo : List Item)
      → Steps todo (next badger items_of c it)
      → length todo < fuel
      → walk badger items_of fuel c it ≡ some todo
  unfolding walk
  walk-Steps zero it todo h lt = absurd (omega arith)
  walk-Steps (suc fuel) it todo h lt = by_next (walk-Steps fuel) (next badger items_of c it) h
    where
      by_next :
          ((it' : L1Iterator) (todo' : List Item)
            → Steps todo' (next badger items_of c it')
            → length todo' < fuel
            → walk badger items_of fuel c it' ≡ some todo')
          → (r : Bool × L1Iterator) → Steps todo r
          → (if r.0 then seen (current r.1) (walk badger items_of fuel c r.1) else some [])
            ≡ some todo
      by_next again (false, it') e = ap some (sym e)
      by_next again (true, it') (x, left, e, a) =
          let rest = again it' left (next-Steps it' x left a) (omega (arith, ap length e)) in
          rw (current-At it' x left a, rest, e) refl

  -- The loop over the iterator sees the items of all shards, in the order of the shards and of Badger's
  -- own iterators, each once, and ends: one round more than there are items is enough.
  pub walk-all_items :
      walk badger items_of (suc (length (all_items badger items_of c.shards))) c new_iterator
      ≡ some (all_items badger items_of c.shards)
  walk-all_items =
      walk-Steps _ new_iterator (all_items badger items_of c.shards)
        (unfold next in init_shard-Steps c.shards new_iterator refl) (omega arith)
