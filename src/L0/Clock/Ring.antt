-- ===== src/L0/Clock/Ring.antt =====
-- pkg/l0/l0_cache.go: the ring keeps its capacity, its hand and its count of occupied slots.
use tieredcache.Base.{
  ℕ, zero, suc, ◌+◌, ◌≤◌, ◌<◌, ◌≡◌, refl, true, false, List, [], ◌∷◌, some, Bytes, length,
  length-set, get_elem?, get_elem?-some, set, is_empty, if◌then◌else◌, arith, bytes_eq,
  bytes_eq_iff, ==_iff, Returns, ◌∙◌, Run, Bool-cases, inl, inr, ◌==◌,
}
use tieredcache.Common.Entry.{CacheEntry}
use tieredcache.L0.State.{ClockEntry, Shard}
use tieredcache.L0.Shard.{occupied, IsRing, Keeps}
use tieredcache.L0.Clock.{evict_at, claim_slot, claim_rounds, add_to_clock, clear_slot}

abbrev pub held : ClockEntry → ℕ
held ce = if is_empty ce.key then 0 else 1

-- A slot's write moves the count by what the slot held and holds.
pub occupied-set :
    (ring : List ClockEntry) (i : ℕ) (old new : ClockEntry)
    → get_elem? ring i ≡ some old
    → occupied (set ring i new) + held old ≡ occupied ring + held new
occupied-set [] i old new e = cc
occupied-set (ce ∷ ring) zero old new e = ground arith
occupied-set (ce ∷ ring) (suc i) old new e = ground (arith, occupied-set ring i old new e)

pub occupied-le-length : (ring : List ClockEntry) → occupied ring ≤ length ring
occupied-le-length [] = omega arith
occupied-le-length (ce ∷ ring) = ground (arith, occupied-le-length ring)

module _ (s : Shard) (idx : ℕ) (ce : ClockEntry)
    (at_idx : get_elem? s.frequency idx ≡ some ce) where
  pub evict_at-IsRing :
      (e : CacheEntry) → IsRing s → is_empty ce.key ≡ false → IsRing (evict_at idx ce e s)
  unfolding evict_at
  evict_at-IsRing e h full = record {
    whole = length-set s.frequency idx _ ∙ h.whole;
    hand = omega (arith, h.hand);
    counted = ground (
      arith,
      h.counted,
      occupied-set s.frequency idx ce (record ce { key = []; weight = 0 }) at_idx,
    );
  }

  -- A write that keeps the key keeps the ring.
  pub unreference-IsRing :
      IsRing s
      → IsRing (record s { frequency = set s.frequency idx (record ce { reference = false }) })
  unreference-IsRing h = record {
    whole = length-set s.frequency idx _ ∙ h.whole;
    hand = h.hand;
    counted = omega (
      arith,
      h.counted,
      occupied-set s.frequency idx ce (record ce { reference = false }) at_idx,
    );
  }

claim_slot-IsRing :
    (idx : ℕ) (key : Bytes) (w : ℕ) (s : Shard) (next : Run Shard)
    → IsRing s
    → is_empty key ≡ false
    → idx < s.freq_cap
    → Returns next (λ s'. IsRing s' × Keeps s s')
    → Returns
        (claim_slot idx (get_elem? s.frequency idx) key w s next)
        (λ s'. IsRing s' × Keeps s s')
unfolding claim_slot
claim_slot-IsRing idx key w s next h k lt rest =
    let (ce, at_idx) = get_elem?-some s.frequency idx (omega (arith, h.whole)) in
    let new : ClockEntry = record { key = key; reference = true; weight = w } in
    rw at_idx (elim (Bool-cases (is_empty ce.key)) [
      | inl free ↦ rw free (
        record {
          whole = length-set s.frequency idx _ ∙ h.whole;
          hand = h.hand;
          counted = ground (
            arith,
            h.counted,
            h.whole,
            length-set s.frequency idx new,
            occupied-set s.frequency idx ce new at_idx,
            occupied-le-length (set s.frequency idx new),
          );
        },
        record { entries = refl; memory = refl; weights = refl },
      )
      | inr taken ↦ rw taken rest
    ])

claim_rounds-IsRing :
    (rounds i : ℕ) (key : Bytes) (w : ℕ) (s : Shard)
    → IsRing s
    → is_empty key ≡ false
    → Returns (claim_rounds rounds i key w s) (λ s'. IsRing s' × Keeps s s')
unfolding claim_rounds
claim_rounds-IsRing zero i key w s h k = (
  record { whole = h.whole; hand = omega (arith, h.hand); counted = h.counted },
  record { entries = refl; memory = refl; weights = refl },
)
claim_rounds-IsRing (suc rounds) i key w s h k =
    claim_slot-IsRing _ key w s _ h k (omega (arith, h.hand))
      (claim_rounds-IsRing rounds (i + 1) key w s h k)

-- Adding a key to the ring of a well-formed shard does not panic and keeps map and accounts.
pub add_to_clock-IsRing :
    (key : Bytes) (w : ℕ) (s : Shard)
    → IsRing s
    → is_empty key ≡ false
    → Returns (add_to_clock key w s) (λ s'. IsRing s' × Keeps s s')
unfolding add_to_clock
add_to_clock-IsRing key w s h k = elim (Bool-cases (s.freq_cap == 0)) [
  | inl e ↦ absurd (omega (arith, h.hand, (==_iff _ _).0 e))
  | inr e ↦ rw e (claim_rounds-IsRing s.freq_cap 0 key w s h k)
]

-- Clearing the slot of a key, which is not empty, keeps the ring, the map and the accounts.
pub clear_slot-IsRing :
    (rounds i : ℕ) (key : Bytes) (s : Shard)
    → IsRing s
    → is_empty key ≡ false
    → i + rounds ≡ s.freq_cap
    → Returns (clear_slot rounds i key s) (λ s'. IsRing s' × Keeps s s')
unfolding clear_slot
clear_slot-IsRing zero i key s h k e = (h, record { entries = refl; memory = refl; weights = refl })
clear_slot-IsRing (suc rounds) i key s h k e =
    let (ce, at_i) = get_elem?-some s.frequency i (omega (arith, h.whole)) in
    rw (at_i, clear_slot)
      (elim (Bool-cases (bytes_eq ce.key key)) [
        | inl same ↦ rw same (
          record {
            whole = length-set s.frequency i _ ∙ h.whole;
            hand = h.hand;
            counted = ground (
              arith,
              h.counted,
              (bytes_eq_iff ce.key key).0 same,
              occupied-set s.frequency i ce (record ce { key = []; weight = 0 }) at_i,
            );
          },
          record { entries = refl; memory = refl; weights = refl },
        )
        | inr other ↦ rw other (clear_slot-IsRing rounds (i + 1) key s h k (omega arith))
      ])
