-- ===== src/Tiered/Applied.antt =====
-- pkg/tieredcache/tieredcache.go: what the recovered entries leave in the tiers.
use tieredcache.Base.{
  suc, length, ◌≤◌, ℕ, Option, none, bytes_eq, bytes_eq_iff, subst, ap, ◌⊎◌, ◌==◌, ◌≡◌, ◌∙◌, false,
  inl, inr, List, [], ◌∷◌, some, Bytes, is_empty, Bool-cases, ℤ, pos, arith, Run, done, Returns,
  Returns-bind, Returns-done, ◌||◌, if◌then◌else◌,
}
use tieredcache.L0.State.{Cache}
use tieredcache.L0.Shard.{IsCache}
use tieredcache.L0.Ops.{set_value, delete, empty_key_error}
use tieredcache.L0.Ops.Written.{SameConfig}
use tieredcache.L0.Ops.Writes.{delete-Deletes}
use tieredcache.L0.Spec.{View, Stored, Removed, bad_value}
use tieredcache.L0.Ops.Reads.{unexpired}
use tieredcache.L0.Spec.Steps.{view, set_value-Stored, set_value-bad, same_config}
use tieredcache.L1.Badger.{Badger}
use tieredcache.L1.State.{L1Cache, l1_set, l1_delete, l1_empty_key}
use tieredcache.L1.Reads.{IsL1}
use tieredcache.L1.Whole.{set_done, delete_done}
use tieredcache.Replay.Entry.{WalEntry, Operation, op_set, op_delete, op_promote, op_demote}
use tieredcache.Tiered.Moved.{IsReady}
use tieredcache.Common.Errors.{GoError, nil, is_nil}
use tieredcache.Tiered.Start.{apply_entry, apply_entries}

-- The view with another value for a key, at all times.
abbrev pub shows : Bytes → Option Bytes → View → View
shows key o v t q = if bytes_eq q key then o else v t q

-- What an entry of the log is to do to the values that L0 shows; `Set` refuses some keys and values.
abbrev pub on_operation : ℕ → WalEntry → View → Operation → View
on_operation limit e v op_set =
    if is_empty e.key || bad_value limit e.value then v else shows e.key (some e.value) v
on_operation limit e v op_delete = if is_empty e.key then v else shows e.key none v
on_operation limit e v op_promote = v
on_operation limit e v op_demote = v

abbrev pub on_entry : ℕ → WalEntry → View → View
on_entry limit e v = if e.tier == 0 then on_operation limit e v e.operation else v

abbrev pub on_entries : ℕ → List WalEntry → View → View
on_entries limit [] v = v
on_entries limit (e ∷ es) v = on_entries limit es (on_entry limit e v)

-- Each key shows what another view shows, or nothing.
abbrev pub Under : View → View → Type 0
Under f v = (q : Bytes) → ((t : ℕ) → v t q ≡ f t q) ⊎ ((t : ℕ) → v t q ≡ none)

Stored-Under :
    (key value : Bytes) (now : ℕ) (f v v' : View)
    → Under f v
    → Stored key value (pos 0) now v v'
    → Under (shows key (some value) f) v'
Stored-Under key value now f v v' h s q = elim (Bool-cases (bytes_eq q key)) [
  | inl same ↦ inl (λ t. rw (same, (bytes_eq_iff q key).0 same) (s.shown t))
  | inr other ↦ elim (s.others q (λ e. ground (arith, bytes_eq_iff q key))) [
    | inr gone ↦ inr gone
    | inl still ↦ elim (h q) [
      | inl shown ↦ inl (λ t. rw other (still t ∙ shown t))
      | inr lost ↦ inr (λ t. still t ∙ lost t)
    ]
  ]
]

Removed-Under :
    (key : Bytes) (f v v' : View) → Under f v → Removed key v v' → Under (shows key none f) v'
Removed-Under key f v v' h r q = elim (Bool-cases (bytes_eq q key)) [
  | inl same ↦ inr (λ t. rw ((bytes_eq_iff q key).0 same) (r.gone t))
  | inr other ↦
      let still = r.others q (λ e. ground (arith, bytes_eq_iff q key)) in
      elim (h q) [
        | inl shown ↦ inl (λ t. rw other (still t ∙ shown t))
        | inr lost ↦ inr (λ t. still t ∙ lost t)
      ]
]

-- After a call of L0: it is well-formed, has its configuration, and shows no more than a view.
abbrev KeptUnder : Cache → View → Cache → Type 0
KeptUnder a f a' = IsCache a' × SameConfig a a' × Under f (view a')

module _ (a : Cache) (f : View) (h : IsCache a) (is_open : a.closed ≡ false) (u : Under f (view a))
    (e : WalEntry) where
  set_value-KeptUnder :
      (now : ℕ)
      → Returns
          (set_value a e.key e.value (pos 0) now)
          (λ r. KeptUnder a (on_operation a.max_payload e f op_set) r.0)
  set_value-KeptUnder now = elim (Bool-cases (is_empty e.key || bad_value a.max_payload e.value)) [
    | inl bad ↦
        let (err, ran, _) = set_value-bad a h is_open e.key e.value (pos 0) now bad in
        rw (ran, bad) (h, same_config a, u)
    | inr good ↦
        let (a', ran, h', config, s) =
          set_value-Stored a h is_open e.key e.value (pos 0) now good in
        rw (ran, good) (h', config, Stored-Under e.key e.value now f (view a) (view a') u s)
  ]

  delete-KeptUnder :
      Returns (delete a e.key) (λ r. KeptUnder a (on_operation a.max_payload e f op_delete) r.0)
  delete-KeptUnder = elim (Bool-cases (is_empty e.key)) [
    | inl no_key ↦ rw no_key (
        Returns-done _ (λ r. KeptUnder a f r.0) (a, empty_key_error)
          (unfold delete in simp (is_open, no_key)) (h, same_config a, u))
    | inr k ↦
        let (a', ran, h', config, gone, others) = delete-Deletes a e.key h is_open k in
        let removed : Removed e.key (view a) (view a') = record {
          gone = λ t. ap (unexpired t) gone;
          others = λ q ne t. ap (unexpired t) (others q ne);
        } in
        rw (ran, k) (h', config, Removed-Under e.key f (view a) (view a') u removed)
  ]

count_failed :
    (err : GoError) (failed n : ℕ)
    → failed ≤ n
    → (if is_nil err then failed else suc failed) ≤ suc n
count_failed err failed n h = ground arith

module _ {badger : Badger} where
  abbrev Serves : L1Cache badger → Type 0
  Serves b = IsL1 b × (b.closed ≡ false)

  module _ (b : L1Cache badger) (h : IsL1 b) (is_open : b.closed ≡ false) where
    l1_set-Serves :
        (key value : Bytes) (ttl : ℤ) (now : ℕ)
        → Returns (l1_set b key value ttl now) (λ r. Serves r.0)
    l1_set-Serves key value ttl now = elim (Bool-cases (is_empty key)) [
      | inl no_key ↦
          Returns-done _ (λ r. Serves r.0) (b, l1_empty_key)
            (unfold l1_set in simp (is_open, no_key)) (h, is_open)
      | inr k ↦
          let (b', err, ran, h', open', _) = set_done b key h is_open k value ttl now in
          rw ran (h', open')
    ]

    l1_delete-Serves : (key : Bytes) → Returns (l1_delete b key) (λ r. Serves r.0)
    l1_delete-Serves key = elim (Bool-cases (is_empty key)) [
      | inl no_key ↦
          Returns-done _ (λ r. Serves r.0) (b, l1_empty_key)
            (unfold l1_delete in simp (is_open, no_key)) (h, is_open)
      | inr k ↦
          let (b', db, held, ran, h', open', _) = delete_done b key h is_open k in
          rw ran (h', open')
    ]

  -- Both tiers take calls, and L0 has its limits.
  abbrev pub Ready : ℕ → Cache × L1Cache badger → Type 0
  Ready limit (a, b) = IsReady a b × (a.max_payload ≡ limit)

  -- And L0 shows no more than a view.
  abbrev pub Holds : ℕ → View → Cache × L1Cache badger → Type 0
  Holds limit f (a, b) = Ready limit (a, b) × Under f (view a)

  -- The same, with whatever else there is.
  abbrev pub HoldsWith : {X : Type 0} → ℕ → View → Cache × L1Cache badger × X → Type 0
  HoldsWith limit f (a, b, x) = Holds limit f (a, b)

  module _ (limit : ℕ) (f : View) (e : WalEntry) (now : ℕ) (a : Cache) (b : L1Cache badger)
      (h : Ready limit (a, b)) (u : Under f (view a)) where
    with_l0-Kept : (g : View) (a' : Cache) → KeptUnder a g a' → Holds limit g (a', b)
    with_l0-Kept g a' k = (
      (
        record {
          valid0 = k.0;
          open0 = k.1.closed ∙ h.0.open0;
          valid1 = h.0.valid1;
          open1 = h.0.open1;
        },
        k.1.max_payload ∙ h.1,
      ),
      k.2,
    )

    with_l1-Serves : (b' : L1Cache badger) → Serves b' → Holds limit f (a, b')
    with_l1-Serves b' s =
        ((record { valid0 = h.0.valid0; open0 = h.0.open0; valid1 = s.0; open1 = s.1 }, h.1), u)

    by_tier :
        (g : View) (m m' : Run (Cache × L1Cache badger × GoError))
        → Returns m (HoldsWith limit g)
        → Returns m' (HoldsWith limit f)
        → Returns
            (if e.tier == 0 then m else if e.tier == 1 then m' else done (a, b, nil))
            (HoldsWith limit (if e.tier == 0 then g else f))
    by_tier g m m' k k' = elim (Bool-cases (e.tier == 0)) [
      | inl zero ↦ rw zero k
      | inr other ↦ elim (Bool-cases (e.tier == 1)) [
        | inl one ↦ rw (other, one) k'
        | inr more ↦ rw (other, more) (h, u)
      ]
    ]

    at_no_tier : Holds limit (if e.tier == 0 then f else f) (a, b)
    at_no_tier = elim (Bool-cases (e.tier == 0)) [
      | inl zero ↦ rw zero (h, u)
      | inr other ↦ rw other (h, u)
    ]

    apply_entry-Holds :
        (o : Operation)
        → Returns
            (apply_entry e now a b o)
            (HoldsWith limit (if e.tier == 0 then on_operation limit e f o else f))
    unfolding apply_entry
    apply_entry-Holds op_set =
        by_tier _ _ _
          (Returns-bind (set_value a e.key e.value (pos 0) now) _ _
            (HoldsWith limit (on_operation limit e f op_set))
            (subst
              (λ n.
                Returns (set_value a e.key e.value (pos 0) now)
                  (λ r. KeptUnder a (on_operation n e f op_set) r.0))
              h.1 (set_value-KeptUnder a f h.0.valid0 h.0.open0 u e now))
            (λ (a', err) k. with_l0-Kept _ a' k))
          (Returns-bind (l1_set b e.key e.value (pos 0) now) _ (λ r. Serves r.0) (HoldsWith limit f)
            (l1_set-Serves b h.0.valid1 h.0.open1 e.key e.value (pos 0) now)
            (λ (b', err) s. with_l1-Serves b' s))
    apply_entry-Holds op_delete =
        by_tier _ _ _
          (Returns-bind (delete a e.key) _ _ (HoldsWith limit (on_operation limit e f op_delete))
            (delete-KeptUnder a f h.0.valid0 h.0.open0 u e) (λ (a', err) k. with_l0-Kept _ a' k))
          (Returns-bind (l1_delete b e.key) _ (λ r. Serves r.0) (HoldsWith limit f)
            (l1_delete-Serves b h.0.valid1 h.0.open1 e.key) (λ (b', err) s. with_l1-Serves b' s))
    apply_entry-Holds op_promote = at_no_tier
    apply_entry-Holds op_demote = at_no_tier

  -- After a number of entries: at most as many have failed.
  abbrev pub HoldsAfter : ℕ → View → ℕ → Cache × L1Cache badger × ℕ → Type 0
  HoldsAfter limit f n (a, b, failed) = Holds limit f (a, b) × (failed ≤ n)

  -- The entries that `Recover` hands over are applied to the end, whatever they say, and leave both tiers
  -- well-formed and open. For each key L0 then shows what its entries of L0, one after the other, make of
  -- what it showed before, where a value that is set stays for ever, or it shows nothing, if the key was
  -- evicted. No more entries fail than there are.
  pub apply_entries-Holds :
      (limit now : ℕ) (es : List WalEntry) (f : View) (a : Cache) (b : L1Cache badger)
      → Ready limit (a, b)
      → Under f (view a)
      → Returns (apply_entries es now a b) (HoldsAfter limit (on_entries limit es f) (length es))
  unfolding apply_entries
  apply_entries-Holds limit now [] f a b h u = ((h, u), omega arith)
  apply_entries-Holds limit now (e ∷ es) f a b h u =
      Returns-bind (apply_entry e now a b e.operation) _ (HoldsWith limit (on_entry limit e f)) _
        (apply_entry-Holds limit f e now a b h u e.operation)
        (λ (a', b', err) r.
          Returns-bind (apply_entries es now a' b') _
            (HoldsAfter limit (on_entries limit es (on_entry limit e f)) (length es))
            (HoldsAfter limit (on_entries limit es (on_entry limit e f)) (suc (length es)))
            (apply_entries-Holds limit now es (on_entry limit e f) a' b' r.0 r.1)
            (λ (a'', b'', failed) k. (k.0, count_failed err failed (length es) k.1)))
