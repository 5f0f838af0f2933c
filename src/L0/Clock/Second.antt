-- ===== src/L0/Clock/Second.antt =====
-- pkg/l0/l0_cache.go: the second chance. A sweep over slots whose reference bits are all set only
-- clears the bits.
use native.Mathlib.Decide.{dec_lt}
use native.Mathlib.Nat.{div-add-mod}
use tieredcache.Base.{
  ℕ, zero, suc, ◌+◌, ◌*◌, ◌/◌, ◌%◌, ◌≤◌, ◌<◌, ◌≡◌, ◌≢◌, refl, Bool, true, false, some, length,
  get_elem?, get_elem?-some, set, get_elem?-set_ne, is_empty, arith, Run, done, Bool-cases, inl,
  inr, ◌==◌, sym, ◌∙◌, All, All-get_elem?,
}
use tieredcache.L0.State.{ClockEntry, Shard}
use tieredcache.L0.Shard.{IsRing, Keeps}
use tieredcache.L0.Clock.{visit_slot, evict_rounds, evict_one}
use tieredcache.L0.Clock.Ring.{occupied-le-length, unreference-IsRing}

mul_mono : (a b n : ℕ) → a < b → a * n + n ≤ b * n
mul_mono a b n h = grind arith

mul_le : (a b n : ℕ) → b ≤ a → b * n ≤ a * n
mul_le a b n h = grind arith

-- One turn of the ring visits each slot once.
pub mod_ne : (h i j n : ℕ) → i < j → j < n → (h + i) % n ≢ (h + j) % n
mod_ne h i j n lt below e = elim (dec_lt ((h + i) / n) ((h + j) / n)) [
  | yes p ↦ omega (
    arith,
    e,
    mul_mono ((h + i) / n) ((h + j) / n) n p,
    div-add-mod (h + i) n,
    div-add-mod (h + j) n,
  )
  | no p ↦ omega (
    arith,
    e,
    mul_le ((h + i) / n) ((h + j) / n) n (omega arith),
    div-add-mod (h + i) n,
    div-add-mod (h + j) n,
  )
]

-- The slots of the rounds from `i` on that hold a key have their reference bit set.
abbrev Marked : ℕ → Shard → Type 0
Marked i s =
    (j : ℕ)
    → i ≤ j
    → j < s.freq_size
    → (ce : ClockEntry) → get_elem? s.frequency ((s.clock_hand + j) % s.freq_size) ≡ some ce
    → is_empty ce.key ≡ false
    → ce.reference ≡ true

abbrev Spared : Shard → Run (Shard × Bool) → Type 0
Spared s r = (s' : Shard) × (r ≡ done (s', false)) × Keeps s s'

Spared-visit :
    (idx : ℕ) (s : Shard) (ce : ClockEntry) (next : Shard → Run (Shard × Bool))
    → (is_empty ce.key ≡ false → ce.reference ≡ true)
    → Spared s (next s)
    → Spared s
        (next (record s { frequency = set s.frequency idx (record ce { reference = false }) }))
    → Spared s (visit_slot idx (some ce) s next)
unfolding visit_slot
Spared-visit idx s ce next marked same cleared = elim (Bool-cases (is_empty ce.key)) [
  | inl free ↦ (same.0, rw free same.1, same.2)
  | inr full ↦ (cleared.0, rw (full, marked full) cleared.1, cleared.2)
]

Spared-rounds :
    (rounds i : ℕ) (s : Shard)
    → IsRing s
    → i + rounds ≡ s.freq_size
    → Marked i s
    → Spared s (evict_rounds rounds i s)
unfolding evict_rounds
Spared-rounds zero i s h e marked =
    (s, refl, record { entries = refl; memory = refl; weights = refl })
Spared-rounds (suc rounds) i s h e marked =
    let idx = (s.clock_hand + i) % s.freq_size in
    let bound : idx < length s.frequency =
      omega (arith, h.whole, h.counted, occupied-le-length s.frequency) in
    let (ce, at_idx) = get_elem?-some s.frequency idx bound in
    let s' : Shard = record s {
      frequency = set s.frequency idx (record ce { reference = false });
    } in
    let (t, ran, kept) =
      Spared-rounds rounds (i + 1) s' (unreference-IsRing s idx ce at_idx h) (omega arith)
        (λ j le lt ce' at_j. marked j (omega arith) lt ce' (
          sym (
            get_elem?-set_ne s.frequency idx ((s.clock_hand + j) % s.freq_size)
              (record ce { reference = false })
              (mod_ne s.clock_hand i j s.freq_size (omega arith) lt))
          ∙ at_j)) in
    let (t', ran', kept') =
      Spared-rounds rounds (i + 1) s h (omega arith) (λ j le lt. marked j (omega arith) lt) in
    rw (at_idx, visit_slot)
      (Spared-visit idx s ce (evict_rounds rounds (i + 1))
        (marked i (omega arith) (omega arith) ce at_idx) (t', ran', kept')
        (t, ran, record { entries = kept.entries; memory = kept.memory; weights = kept.weights }))

-- If the reference bit of every slot that holds a key is set, as it is after `addToClock`, then
-- `evictOne` answers false: it evicts nothing, however many entries the map holds, and map and
-- accounts stay as they are.
pub evict_one-referenced :
    (s : Shard)
    → IsRing s
    → All (λ ce. is_empty ce.key ≡ false → ce.reference ≡ true) s.frequency
    → (s' : Shard) × (evict_one s ≡ done (s', false)) × Keeps s s'
unfolding evict_one
evict_one-referenced s h marked = elim (Bool-cases (s.freq_size == 0)) [
  | inl idle ↦ (s, rw idle refl, record { entries = refl; memory = refl; weights = refl })
  | inr busy ↦
      let (t, ran, kept) = Spared-rounds s.freq_size 0 s h (omega arith) (λ j le lt ce at_j.
        All-get_elem? (λ ce. is_empty ce.key ≡ false → ce.reference ≡ true) s.frequency _ ce marked
          at_j) in
      (t, rw busy ran, kept)
]
