-- ===== src/L0/Snapshot/Never.antt =====
-- pkg/l0/snapshot.go: `RestoreFromSnapshot` ends, and never without an error.
use tieredcache.Base.{
  ℕ, zero, suc, ◌<◌, ◌≡◌, ◌≢◌, refl, [], ◌∷◌, Bytes, str, arith, inl, inr, length, length-drop, ltb,
  drop, Bool-cases, Run, Result, ok, fail, Returns, Returns-bind, Returns-done,
}
use tieredcache.Common.Errors.{GoError, nil, text}
use tieredcache.Common.Entry.{CacheEntry}
use tieredcache.L0.State.{Cache}
use tieredcache.L0.Shard.{IsCache}
use tieredcache.L0.Ops.{set_value}
use tieredcache.L0.Ops.Total.{set_value-IsCache}
use tieredcache.L0.Snapshot.{Json, NotNil, NotNil-bind, NotNil-or_fail, NotNil-if}
use tieredcache.L0.Snapshot.Restore.{
  Number, at_end, cut_short, number, read_number, read_full, restore_start, read_header,
  number_or_fail, restore_bad_magic, restore_bad_version,
}
use tieredcache.L0.Snapshot.Loop.{
  RestoreRound, failed, left, entry, restore_round, numbered, sized, decoded, set_entry, check_sum,
  after_round, restore_loop, started, restore_from_snapshot,
}

-- What a round leaves: an error that is not nil; or nothing, at the end of the file; or an entry and
-- fewer bytes than there were.
abbrev Goes : ℕ → RestoreRound → Type 0
Goes n (failed err) = err ≢ nil
Goes n (left rest) = rest ≡ []
Goes n (entry e rest hash) = length rest < n

abbrev pub IsFailure : Cache × GoError → Type 0
IsFailure (c, err) = IsCache c × (err ≢ nil)

module _ (json : Json) where
  decoded-Goes :
      (n : ℕ) (rest : Bytes) (hash : ℕ) (r : Result Bytes CacheEntry)
      → length rest < n
      → Goes n (decoded rest hash r)
  unfolding decoded
  decoded-Goes n rest hash (fail err) h = λ e. cc
  decoded-Goes n rest hash (ok x) h = h

  sized-Goes :
      (n k : ℕ) (s : Bytes) (hash : ℕ) → length s < n → Goes n (sized json hash (read_full k s))
  unfolding sized read_full
  sized-Goes n k s hash h = elim (Bool-cases (ltb (length s) k)) [
    | inl short ↦ rw short (λ e. cc)
    | inr whole ↦ rw whole (decoded-Goes n (drop k s) _ _ (omega (arith, length-drop k s)))
  ]

  restore_round-Goes : (s : Bytes) (hash : ℕ) → Goes (length s) (restore_round json s hash)
  unfolding restore_round numbered read_number
  restore_round-Goes [] hash = refl
  restore_round-Goes (b ∷ s) hash = elim (Bool-cases (ltb (length (b ∷ s)) 4)) [
    | inl short ↦ rw short (λ e. cc)
    | inr whole ↦ rw whole (
        sized-Goes (length (b ∷ s)) _ (drop 4 (b ∷ s)) hash
          (ground (arith, length-drop 4 (b ∷ s), whole)))
  ]

set_entry-IsCache :
    (now : ℕ) (c : Cache) (e : CacheEntry) → IsCache c → Returns (set_entry now c e) IsCache
unfolding set_entry
set_entry-IsCache now c e h =
    Returns-bind (set_value c e.key e.value e.ttl now) _ (λ r. IsCache r.0) IsCache
      (set_value-IsCache c h e.key e.value e.ttl now) (λ r k. k)

after_round-IsFailure :
    (again : Bytes → ℕ → Cache → Run (Cache × GoError)) (now hash n : ℕ) (c : Cache)
    (r : RestoreRound)
    → Goes n r
    → IsCache c
    → ((s : Bytes) (hash : ℕ) (c' : Cache)
        → length s < n
        → IsCache c'
        → Returns (again s hash c') IsFailure)
    → Returns (after_round again now hash c r) IsFailure
unfolding after_round check_sum read_number
after_round-IsFailure again now hash n c (failed err) g h k = (h, g)
after_round-IsFailure again now hash n c (left rest) g h k = rw g (h, λ e. cc)
after_round-IsFailure again now hash n c (entry e rest hash') g h k =
    Returns-bind (set_entry now c e) _ IsCache IsFailure (set_entry-IsCache now c e h)
      (λ c' h'. k rest hash' c' g h')

number_or_fail-NotNil : (message : Bytes) (n : Number) → NotNil (number_or_fail message n)
number_or_fail-NotNil message at_end = λ e. cc
number_or_fail-NotNil message cut_short = λ e. cc
number_or_fail-NotNil message (number n s) = tt

read_header-NotNil :
    (json : Json) (bad_magic bad_version : ℕ → Bytes) (s : Bytes)
    → NotNil (read_header json bad_magic bad_version s)
unfolding read_header
read_header-NotNil json bad_magic bad_version s =
    NotNil-bind _ _ (number_or_fail-NotNil _ (read_number s)) (λ (m, s1).
      NotNil-if _ (fail (text (bad_magic m))) _ (λ e. cc)
        (NotNil-bind _ _ (number_or_fail-NotNil _ (read_number s1)) (λ (v, s2).
          NotNil-if _ (fail (text (bad_version v))) _ (λ e. cc)
            (NotNil-bind _ _ (number_or_fail-NotNil _ (read_number s2)) (λ (n, s3).
              NotNil-bind _ _ (NotNil-or_fail _ (read_full n s3)) (λ (d, s4).
                NotNil-bind _ _ (NotNil-or_fail _ (json.unmarshal_header d)) (λ h. tt)))))))

restore_start-NotNil :
    (json : Json) (opened : Result Bytes Bytes) → NotNil (restore_start json opened)
unfolding restore_start
restore_start-NotNil json opened = NotNil-bind _ _ (NotNil-or_fail _ opened) (λ file.
    NotNil-bind _ _ (read_header-NotNil json restore_bad_magic restore_bad_version file) (λ r. tt))

module _ (json : Json) (now : ℕ) where
  restore_loop-IsFailure :
      (fuel : ℕ) (s : Bytes) (hash : ℕ) (c : Cache)
      → length s < fuel
      → IsCache c
      → Returns (restore_loop json now fuel s hash c) IsFailure
  unfolding restore_loop
  restore_loop-IsFailure zero s hash c lt h = absurd (omega arith)
  restore_loop-IsFailure (suc fuel) s hash c lt h =
      after_round-IsFailure (restore_loop json now fuel) now hash (length s) c
        (restore_round json s hash) (restore_round-Goes json s hash) h
        (λ s' hash' c' lt' h'. restore_loop-IsFailure fuel s' hash' c' (omega arith) h')

  started-IsFailure :
      (c : Cache) (r : Result GoError Bytes)
      → NotNil r
      → IsCache c
      → Returns (started json now c r) IsFailure
  unfolding started
  started-IsFailure c (fail err) bad h = (h, bad)
  started-IsFailure c (ok s) bad h = restore_loop-IsFailure (suc (length s)) s 0 c (omega arith) h

  -- On a well-formed cache `RestoreFromSnapshot` comes to an end without a panic, whatever the file
  -- holds, a file that `WriteSnapshot` wrote included, and it never returns nil. The cache is well formed
  -- afterwards.
  pub restore-IsFailure :
      (c : Cache) (opened : Result Bytes Bytes)
      → IsCache c
      → Returns (restore_from_snapshot json now c opened) IsFailure
  unfolding restore_from_snapshot
  restore-IsFailure c opened h = elim (Bool-cases c.closed) [
    | inl shut ↦ Returns-done _ IsFailure (c, text (str "cache is closed")) (simp shut) (h, λ e. cc)
    | inr is_open ↦
        simp is_open
          (started-IsFailure c (restore_start json opened) (restore_start-NotNil json opened) h)
  ]
