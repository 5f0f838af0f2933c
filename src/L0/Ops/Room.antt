-- ===== src/L0/Ops/Room.antt =====
-- pkg/l0/l0_cache.go: the eviction loop of `Set` ends, and what `Set` does to a shard.
use tieredcache.Base.{
  ℕ, zero, suc, ◌<◌, ◌≡◌, ◌≢◌, refl, Bool, true, false, List, [], ◌∷◌, none, some, Bytes, length,
  arith, ltb, Run, done, Bool-cases, ◌⊎◌, inl, inr, lookup, remove, Returns, Returns-map,
  Returns-result, Returns-bind, bytes_eq_refl, sym, add64, ◌∙◌, ap, lookup-insert, lookup-remove,
  total-insert, insert-IsMap, All-insert, bytes_eq, bytes_eq_iff,
}
use tieredcache.Common.Entry.{CacheEntry}
use tieredcache.L0.State.{Shard}
use tieredcache.L0.Shard.{IsRing, IsAccounted, IsShard, IsStored, Keeps}
use tieredcache.L0.Clock.{evict_one, add_to_clock}
use tieredcache.L0.Clock.Ring.{add_to_clock-IsRing}
use tieredcache.L0.Clock.Evict.{EvictOutcome, evict_one-Ends}
use tieredcache.L0.Ops.{make_room, store, set_in_shard}

-- Every key has its entry as before, or none.
abbrev pub Shrinks : List (Bytes × CacheEntry) → List (Bytes × CacheEntry) → Type 0
Shrinks m m' = (q : Bytes) → (lookup q m' ≡ lookup q m) ⊎ (lookup q m' ≡ none)

Shrinks-trans :
    (m m' m'' : List (Bytes × CacheEntry)) → Shrinks m m' → Shrinks m' m'' → Shrinks m m''
Shrinks-trans m m' m'' h k q = elim (k q) [
  | inl e ↦ elim (h q) [ inl d ↦ inl (e ∙ d) | inr d ↦ inr (e ∙ d) ]
  | inr e ↦ inr e
]

Shrinks-remove : (m : List (Bytes × CacheEntry)) (v : Bytes) → Shrinks m (remove v m)
Shrinks-remove m v q = rw (lookup-remove v q m) (ground arith)

-- Why the loop has ended: the weight fits, the map is empty, or `evictOne` found no victim.
pub data Room (limit weight : ℕ) (s : Shard) : Type 0 where
  fits : ltb limit (add64 s.used_memory weight) ≡ false → Room limit weight s
  emptied : s.entries ≡ [] → Room limit weight s
  stuck : (t : Shard) → evict_one t ≡ done (s, false) → Room limit weight s

pub record Roomy (limit weight : ℕ) (s s' : Shard) : Type 0 where
  pub valid : IsShard s'
  pub shrinks : Shrinks s.entries s'.entries
  pub ended : Room limit weight s'

entries_empty : (m : List (Bytes × CacheEntry)) → ltb 0 (length m) ≡ false → m ≡ []
entries_empty [] h = refl
entries_empty (x ∷ m) h = absurd (ground arith)

after_evict-Roomy :
    (limit weight : ℕ) (s : Shard) (r : Shard × Bool) (again : Shard → Run Shard)
    → evict_one s ≡ done r
    → IsShard r.0
    → EvictOutcome s r
    → ((t : Shard)
        → IsShard t
        → length t.entries < length s.entries
        → Returns (again t) (Roomy limit weight t))
    → Returns
        (elim r.1 as (λ _. Run Shard) [ true ↦ again r.0 | false ↦ done r.0 ])
        (Roomy limit weight s)
after_evict-Roomy limit weight s (t, true) again e h o rest =
    Returns-map (again t) (Roomy limit weight t) (Roomy limit weight s)
      (rest t h (omega (arith, o.shrinks)))
      (λ u r. record {
        valid = r.valid;
        shrinks =
            Shrinks-trans s.entries t.entries u.entries
              (rw o.entries (Shrinks-remove s.entries o.victim)) r.shrinks;
        ended = r.ended;
      })
after_evict-Roomy limit weight s (t, false) again e h o rest = record {
  valid = h;
  shrinks = λ q. inl (ap (lookup q) o.entries);
  ended = stuck s e;
}

-- One entry goes in every round, so the loop ends within its fuel; it never panics.
pub make_room-Roomy :
    (fuel limit weight : ℕ) (s : Shard)
    → IsShard s
    → length s.entries < fuel
    → Returns (make_room fuel limit weight s) (Roomy limit weight s)
unfolding make_room
make_room-Roomy zero limit weight s h lt = absurd (omega arith)
make_room-Roomy (suc fuel) limit weight s h lt =
    elim (Bool-cases (ltb limit (add64 s.used_memory weight))) [
      | inr room ↦ rw room (record { valid = h; shrinks = λ q. inl refl; ended = fits room })
      | inl tight ↦ rw tight (elim (Bool-cases (ltb 0 (length s.entries))) [
        | inr bare ↦
            rw bare (record {
              valid = h;
              shrinks = λ q. inl refl;
              ended = emptied (entries_empty _ bare);
            })
        | inl some_entry ↦
            let (r, e, ends) = Returns-result (evict_one s) _ (evict_one-Ends s h) in
            rw (some_entry, e)
              (after_evict-Roomy limit weight s r _ e ends.0 ends.1
                (λ t k fewer. make_room-Roomy fuel limit weight t k (omega arith)))
      ])
    ]

-- The accounts after `store`: the old entry's share is gone and the new one's is in.
pub store-IsAccounted :
    (s : Shard) (key : Bytes) (e : CacheEntry)
    → IsAccounted s
    → IsStored (key, e)
    → IsAccounted (store s key e)
unfolding store
store-IsAccounted s key e h ok = record {
  distinct = insert-IsMap key e s.entries h.distinct;
  stored = All-insert IsStored key e s.entries ok h.stored;
  memory = ground (arith, total-insert key (λ (x : CacheEntry). x.size) e s.entries, h.memory);
  weights = ground (arith, total-insert key (λ (x : CacheEntry). x.weight) e s.entries, h.weights);
}

-- What a successful `Set` leaves in the shard.
pub record SetDone (key : Bytes) (e : CacheEntry) (s s' : Shard) : Type 0 where
  pub valid : IsShard s'
  pub stored : lookup key s'.entries ≡ some e
  pub others :
      (q : Bytes)
      → q ≢ key
      → (lookup q s'.entries ≡ lookup q s.entries) ⊎ (lookup q s'.entries ≡ none)

-- Accounts are read from the fields that `Keeps` keeps.
pub IsAccounted-Keeps : (s s' : Shard) → Keeps s s' → IsAccounted s → IsAccounted s'
IsAccounted-Keeps s s' k h = record {
  distinct = rw k.entries h.distinct;
  stored = rw k.entries h.stored;
  memory = rw (k.entries, k.memory) h.memory;
  weights = rw (k.entries, k.weights) h.weights;
}

SetDone-Keeps :
    (key : Bytes) (e : CacheEntry) (s t v : Shard)
    → Shrinks s.entries t.entries
    → IsAccounted (store t key e)
    → IsRing v
    → Keeps (store t key e) v
    → SetDone key e s v
unfolding store
SetDone-Keeps key e s t v shrinks acc ring k = record {
  valid = (ring, IsAccounted-Keeps _ v k acc);
  stored =
      ap (lookup key) k.entries ∙ lookup-insert key key e t.entries ∙ rw (bytes_eq_refl key) refl;
  others = λ q ne.
      rw (k.entries, lookup-insert key q e t.entries)
        (elim (Bool-cases (bytes_eq key q)) [
          | inl same ↦ absurd (ne (sym ((bytes_eq_iff key q).0 same)))
          | inr other ↦ rw other (shrinks q)
        ]);
}

-- `Set` on a well-formed shard ends without a panic, stores the entry, and takes from the other
-- keys at most their entries.
pub set_in_shard-SetDone :
    (limit : ℕ) (key : Bytes) (e : CacheEntry) (s : Shard)
    → IsShard s
    → IsStored (key, e)
    → Returns (set_in_shard limit key e s) (SetDone key e s)
unfolding set_in_shard
set_in_shard-SetDone limit key e s h ok =
    Returns-bind (make_room (suc (length s.entries)) limit e.weight s) _ (Roomy limit e.weight s) _
      (make_room-Roomy (suc (length s.entries)) limit e.weight s h (omega arith))
      (λ t room.
        let u = store t key e in
        let ring : IsRing u =
          unfold store in
          record {
            whole = room.valid.0.whole;
            hand = room.valid.0.hand;
            counted = room.valid.0.counted;
          } in
        Returns-map (add_to_clock key e.weight u) (λ v. IsRing v × Keeps u v) (SetDone key e s)
          (add_to_clock-IsRing key e.weight u ring ok.keyed)
          (λ v o.
            SetDone-Keeps key e s t v room.shrinks (store-IsAccounted t key e room.valid.1 ok) o.0
              o.1))
