-- ===== src/L0/Clock/Evict.antt =====
-- pkg/l0/l0_cache.go: what one call of `evictOne` does.
use tieredcache.Base.{
  ℕ, zero, suc, ◌+◌, ◌%◌, ◌<◌, ◌≡◌, refl, Bool, true, false, some, Bytes, length, get_elem?,
  get_elem?-some, set, is_empty, arith, Run, Bool-cases, Option-cases, inl, inr, lookup, remove,
  ◌==◌, Returns, Returns-map, remove-IsMap, total-remove, All-remove, sub64, length-remove, ◌∙◌, ap,
  subst,
}
use tieredcache.Common.Entry.{CacheEntry}
use tieredcache.L0.State.{ClockEntry, Shard}
use tieredcache.L0.Shard.{IsAccounted, IsShard, Keeps, IsStored}
use tieredcache.L0.Clock.{evict_at, visit_slot, evict_rounds, evict_one}
use tieredcache.L0.Clock.Ring.{occupied-le-length, evict_at-IsRing, unreference-IsRing}

-- One entry of `s`, the victim, has left map and accounts; all else of the map is as before.
pub record Evicts (s s' : Shard) : Type 0 where
  pub victim : Bytes
  pub entry : CacheEntry
  pub found : lookup victim s.entries ≡ some entry
  pub entries : s'.entries ≡ remove victim s.entries
  pub shrinks : length s'.entries + 1 ≡ length s.entries

-- The outcome of a call that answers `evicted`.
abbrev pub EvictOutcome : Shard → Shard × Bool → Type 0
EvictOutcome s (s', true) = Evicts s s'
EvictOutcome s (s', false) = Keeps s s'

-- Deleting a found entry keeps the accounts.
pub remove-IsAccounted :
    (k : Bytes) (e : CacheEntry) (s s' : Shard)
    → IsAccounted s
    → lookup k s.entries ≡ some e
    → s'.entries ≡ remove k s.entries
    → s'.used_memory ≡ sub64 s.used_memory e.size
    → s'.weight ≡ sub64 s.weight e.weight
    → IsAccounted s'
remove-IsAccounted k e s s' h found entries memory weights =
    let size = total-remove k (λ (x : CacheEntry). x.size) s.entries e h.distinct found in
    let weighed = total-remove k (λ (x : CacheEntry). x.weight) s.entries e h.distinct found in
    record {
      distinct = rw entries (remove-IsMap k s.entries h.distinct);
      stored = rw entries (All-remove IsStored k s.entries h.stored);
      memory = rw (memory, entries, h.memory) (omega (arith, size));
      weights = rw (weights, entries, h.weights) (omega (arith, weighed));
    }

-- What a call does to a shard with the same map and accounts, it does to this one.
EvictOutcome-Keeps :
    (s t : Shard) (r : Shard × Bool) → Keeps s t → EvictOutcome t r → EvictOutcome s r
EvictOutcome-Keeps s t (s', true) k o = record {
  victim = o.victim;
  entry = o.entry;
  found = subst (λ m. lookup o.victim m ≡ some o.entry) k.entries o.found;
  entries = o.entries ∙ ap (remove o.victim) k.entries;
  shrinks = o.shrinks ∙ ap length k.entries;
}
EvictOutcome-Keeps s t (s', false) k o = record {
  entries = o.entries ∙ k.entries;
  memory = o.memory ∙ k.memory;
  weights = o.weights ∙ k.weights;
}

abbrev Ends : Shard → Shard × Bool → Type 0
Ends s r = IsShard r.0 × EvictOutcome s r

evict_at-Ends :
    (idx : ℕ) (s : Shard) (ce : ClockEntry) (e : CacheEntry)
    → IsShard s
    → get_elem? s.frequency idx ≡ some ce
    → is_empty ce.key ≡ false
    → lookup ce.key s.entries ≡ some e
    → Ends s (evict_at idx ce e s, true)
unfolding evict_at
evict_at-Ends idx s ce e h at_idx full found = (
  (
    unfold evict_at in evict_at-IsRing s idx ce at_idx e h.0 full,
    remove-IsAccounted ce.key e s _ h.1 found refl refl refl,
  ),
  record {
    victim = ce.key;
    entry = e;
    found = found;
    entries = refl;
    shrinks = length-remove ce.key s.entries e h.1.distinct found;
  },
)

visit_slot-lem :
    (idx : ℕ) (s : Shard) (ce : ClockEntry) (next : Shard → Run (Shard × Bool))
    → IsShard s
    → get_elem? s.frequency idx ≡ some ce
    → ((t : Shard) → IsShard t → Keeps s t → t.freq_size ≡ s.freq_size → Returns (next t) (Ends t))
    → Returns (visit_slot idx (some ce) s next) (Ends s)
unfolding visit_slot
visit_slot-lem idx s ce next h at_idx rest =
    let same : Keeps s s = record { entries = refl; memory = refl; weights = refl } in
    let unref : Shard = record s {
      frequency = set s.frequency idx (record ce { reference = false });
    } in
    let keeps : Keeps s unref = record { entries = refl; memory = refl; weights = refl } in
    let acc : IsAccounted unref = record {
      distinct = h.1.distinct;
      stored = h.1.stored;
      memory = h.1.memory;
      weights = h.1.weights;
    } in
    elim (Bool-cases (is_empty ce.key)) [
      | inl free ↦ rw free (rest s h same refl)
      | inr full ↦ rw full (elim (Bool-cases ce.reference) [
        | inl used ↦ rw used (
            Returns-map (next unref) (Ends unref) (Ends s)
              (rest unref (unreference-IsRing s idx ce at_idx h.0, acc) keeps refl)
              (λ r o. (o.0, EvictOutcome-Keeps s unref r keeps o.1)))
        | inr cold ↦ rw cold (elim (Option-cases (lookup ce.key s.entries)) [
          | inl stale ↦ rw stale (rest s h same refl)
          | inr (e, found) ↦ rw found (evict_at-Ends idx s ce e h at_idx full found)
        ])
      ])
    ]

evict_rounds-lem :
    (rounds i : ℕ) (s : Shard)
    → IsShard s
    → 0 < s.freq_size
    → Returns (evict_rounds rounds i s) (Ends s)
unfolding evict_rounds
evict_rounds-lem zero i s h busy = (h, record { entries = refl; memory = refl; weights = refl })
evict_rounds-lem (suc rounds) i s h busy =
    let idx = (s.clock_hand + i) % s.freq_size in
    let bound : idx < length s.frequency =
      omega (arith, h.0.whole, h.0.counted, occupied-le-length s.frequency) in
    let (ce, at_idx) = get_elem?-some s.frequency idx bound in
    rw (at_idx, visit_slot)
      (visit_slot-lem idx s ce _ h at_idx
        (λ t k same size. evict_rounds-lem rounds (i + 1) t k (rw size busy)))

-- On a well-formed shard `evictOne` does not panic and leaves a well-formed shard; it answers true
-- when exactly one entry has left the map, and false when map and accounts are as before.
pub evict_one-Ends : (s : Shard) → IsShard s → Returns (evict_one s) (Ends s)
unfolding evict_one
evict_one-Ends s h = elim (Bool-cases (s.freq_size == 0)) [
  | inl idle ↦ rw idle (h, record { entries = refl; memory = refl; weights = refl })
  | inr busy ↦ rw busy (evict_rounds-lem s.freq_size 0 s h (ground arith))
]
