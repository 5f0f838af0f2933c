-- ===== src/L0/Clock.antt =====
-- pkg/l0/l0_cache.go: the clock ring of a shard, and eviction.
pub mod Ring
pub mod Evict
pub mod Second
use tieredcache.Base.{
  ℕ, zero, suc, ◌+◌, ◌-◌, ◌%◌, Bool, true, false, [], Option, none, some, Bytes, ltb, ◌==◌,
  if◌then◌else◌, is_empty, bytes_eq, lookup, remove, get_elem?, set, add64, sub64, Run, done, panic,
}
use tieredcache.Common.Entry.{CacheEntry}
use tieredcache.L0.State.{ClockEntry, Shard}

-- The victim leaves the map, and its slot is cleared; the reference bit of the slot stays false.
-- `freqSize--` follows a slot that holds a key, so on a well-formed shard it is not at 0.
unfoldable pub evict_at : ℕ → ClockEntry → CacheEntry → Shard → Shard
evict_at idx ce entry s = record s {
  entries = remove ce.key s.entries;
  used_memory = sub64 s.used_memory entry.size;
  weight = sub64 s.weight entry.weight;
  evicts = add64 s.evicts 1;
  frequency = set s.frequency idx (record ce { key = []; weight = 0 });
  freq_size = s.freq_size - 1;
  clock_hand = (idx + 1) % s.freq_cap;
}

-- The body of the loop at one slot; `next` is the rest of the loop.
unfoldable pub visit_slot :
    ℕ → Option ClockEntry → Shard → (Shard → Run (Shard × Bool)) → Run (Shard × Bool)
unfolding evict_at
visit_slot idx none s next = panic
visit_slot idx (some ce) s next =
    if is_empty ce.key
    then next s
    else if ce.reference
    then next (record s { frequency = set s.frequency idx (record ce { reference = false }) })
    else elim (lookup ce.key s.entries) [
      | none ↦ next s
      | some entry ↦ done (evict_at idx ce entry s, true)
    ]

-- The loop of `evictOne`, with the rounds that are left and the counter `i`.
unfoldable pub evict_rounds : ℕ → ℕ → Shard → Run (Shard × Bool)
unfolding visit_slot
evict_rounds zero i s = done (s, false)
evict_rounds (suc rounds) i s =
    let idx = (s.clock_hand + i) % s.freq_size in
    visit_slot idx (get_elem? s.frequency idx) s (evict_rounds rounds (i + 1))

-- `evictOne`
unfoldable pub evict_one : Shard → Run (Shard × Bool)
unfolding evict_rounds
evict_one s = if s.freq_size == 0 then done (s, false) else evict_rounds s.freq_size 0 s

-- The body of the loop of `addToClock` at one slot.
unfoldable pub claim_slot : ℕ → Option ClockEntry → Bytes → ℕ → Shard → Run Shard → Run Shard
claim_slot idx none key weight s next = panic
claim_slot idx (some ce) key weight s next =
    if is_empty ce.key
    then done (record s {
      frequency = set s.frequency idx (record { key = key; reference = true; weight = weight });
      freq_size = if ltb s.freq_size s.freq_cap then s.freq_size + 1 else s.freq_size;
    })
    else next

unfoldable pub claim_rounds : ℕ → ℕ → Bytes → ℕ → Shard → Run Shard
unfolding claim_slot
claim_rounds zero i key weight s = done (record s { clock_hand = (s.clock_hand + 1) % s.freq_cap })
claim_rounds (suc rounds) i key weight s =
    let idx = (s.clock_hand + i) % s.freq_cap in
    let next = claim_rounds rounds (i + 1) key weight s in
    claim_slot idx (get_elem? s.frequency idx) key weight s next

-- `addToClock`. With no empty slot it advances the hand, and the key is not in the ring;
-- `% freqCap` panics on an empty ring.
unfoldable pub add_to_clock : Bytes → ℕ → Shard → Run Shard
unfolding claim_rounds
add_to_clock key weight s =
    if s.freq_cap == 0 then panic else claim_rounds s.freq_cap 0 key weight s

-- The loop of `Demote` over the slots from `i` on: the first one with the key is cleared.
unfoldable pub clear_slot : ℕ → ℕ → Bytes → Shard → Run Shard
clear_slot zero i key s = done s
clear_slot (suc rounds) i key s =
    let rest = clear_slot rounds (i + 1) key s in
    elim (get_elem? s.frequency i) [
      | none ↦ panic
      | some ce ↦
          if bytes_eq ce.key key
          then done (record s {
            frequency = set s.frequency i (record ce { key = []; weight = 0 });
            freq_size = s.freq_size - 1;
          })
          else rest
    ]
