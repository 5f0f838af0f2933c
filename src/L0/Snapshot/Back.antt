-- ===== src/L0/Snapshot/Back.antt =====
-- pkg/l0/snapshot.go: reading back a file that `WriteSnapshot` has written.
use tieredcache.Base.{
  ℕ, zero, suc, ◌<◌, ◌^◌, ◌≡◌, refl, ap, true, false, List, [], ◌∷◌, ◌++◌, Bytes, str, length, be32,
  be_value, be_value-be32, crc32, All, arith, length-append, take-length-append, drop-length-append,
  le→ltb, lt→ltb, Run, done, panic, no_fuel, ◌>>=◌, ok, ◌+◌, ◌∙◌, u64, total,
}
use mathlib.Core.List.{append_assoc}
use tieredcache.Common.Errors.{GoError, text, wrap}
use tieredcache.Common.Entry.{CacheEntry}
use tieredcache.Replay.Entry.{is_ascii}
use tieredcache.L0.State.{Cache, Shard}
use tieredcache.L0.Ops.{set_value}
use tieredcache.L0.Snapshot.{Json, SameEntry, snapshot_magic, snapshot_version}
use tieredcache.L0.Snapshot.Write.{Faults, snapshot_file, header_of, total_entries, total_memory}
use tieredcache.L0.Snapshot.Written.{
  all_entries, frames, sum_of, Marshalled, preamble, snapshot_file-Parts,
}
use tieredcache.L0.Snapshot.Restore.{
  number, read_number, read_full, read_header, read_snapshot, restore_start,
}
use tieredcache.L0.Snapshot.Loop.{
  failed, entry, restore_round, numbered, sized, decoded, set_entry, after_round, restore_loop,
  started, restore_from_snapshot,
}

read_number-be32 :
    (n : ℕ) (rest : Bytes) → n < 2 ^ 32 → read_number (be32 n ++ rest) ≡ number n rest
unfolding read_number be32
read_number-be32 n rest h = ground (arith, be_value-be32 n h)

length-be32 : (n : ℕ) → length (be32 n) ≡ 4
unfolding be32
length-be32 n = refl

read_full-append : (d rest : Bytes) → read_full (length d) (d ++ rest) ≡ ok (d, rest)
unfolding read_full
read_full-append d rest =
    rw
      (
        le→ltb (length (d ++ rest)) (length d) (omega (arith, length-append d rest)),
        take-length-append d rest,
        drop-length-append d rest,
      )
      refl

read_header-preamble :
    (json : Json) (bad_magic bad_version : ℕ → Bytes) (h rest : Bytes) (r : _)
    → length h < 2 ^ 32
    → json.unmarshal_header h ≡ ok r
    → read_header json bad_magic bad_version (preamble h ++ rest) ≡ ok (r, rest)
unfolding read_header
read_header-preamble json bad_magic bad_version h rest r short e = rw (layout) (
    simp
      (
        read_number-be32 snapshot_magic (be32 snapshot_version ++ (be32 (length h) ++ (h ++ rest)))
            (omega arith),
        read_number-be32 snapshot_version (be32 (length h) ++ (h ++ rest)) (omega arith),
        read_number-be32 (length h) (h ++ rest) short,
        read_full-append h rest,
        e,
      )
      refl)
  where
    layout :
        preamble h ++ rest
        ≡ be32 snapshot_magic ++ (be32 snapshot_version ++ (be32 (length h) ++ (h ++ rest)))
    layout = simp append_assoc refl

-- The entries that a snapshot can bring back: the key is in ASCII, and the length of the text of the
-- entry fits into its four bytes.
pub record IsKept (json : Json) (x : Bytes × CacheEntry) : Type 0 where
  pub ascii : is_ascii x.1.key ≡ true
  pub short : (d : Bytes) → json.marshal_entry x.1 ≡ ok d → length d < 2 ^ 32

-- `Set` of the entries, one after the other, each with its own time to live, whatever error it returns.
unfoldable pub set_all : ℕ → List (Bytes × CacheEntry) → Cache → Run Cache
set_all now [] c = done c
set_all now (x ∷ es) c = do (c', _) ← set_value c x.1.key x.1.value x.1.ttl now; set_all now es c'

drop_error :
    (m : Run (Cache × GoError)) (g : Cache → Run Cache)
    → (m >>= (λ (c', _). g c')) ≡ ((m >>= (λ (c', _). done c')) >>= g)
drop_error (done (c, err)) g = refl
drop_error panic g = refl
drop_error no_fuel g = refl

set_all-set_entry :
    (now : ℕ) (x : Bytes × CacheEntry) (es : List (Bytes × CacheEntry)) (c : Cache)
    → set_all now (x ∷ es) c ≡ (set_entry now c x.1 >>= set_all now es)
unfolding set_all set_entry
set_all-set_entry now x es c =
    drop_error (set_value c x.1.key x.1.value x.1.ttl now) (set_all now es)

-- What the loop makes of the sum at the end of the file: the length of an entry that is not there.
abbrev pub tail_error : Json → ℕ → GoError
tail_error json zero = wrap (str "failed to unmarshal entry: ") (text json.no_text.0)
tail_error json (suc n) = wrap (str "failed to read entry: ") (text (str "EOF"))

abbrev pub sum_error : Json → ℕ → GoError
sum_error json sum = tail_error json (be_value (be32 sum))

bind-again :
    (m : Run Cache) (f : Cache → Run (Cache × GoError)) (g : Cache → Run Cache) (err : GoError)
    → ((c : Cache) → f c ≡ (g c >>= (λ c'. done (c', err))))
    → (m >>= f) ≡ ((m >>= g) >>= (λ c'. done (c', err)))
bind-again (done c) f g err h = h c
bind-again panic f g err h = refl
bind-again no_fuel f g err h = refl

module _ (json : Json) (now : ℕ) where
  set_entry-SameEntry :
      (c : Cache) (e e' : CacheEntry) → SameEntry e e' → set_entry now c e' ≡ set_entry now c e
  unfolding set_entry
  set_entry-SameEntry c e e' same = rw (same.key, same.value, same.ttl) refl

  sized-tail : (hash n : ℕ) → sized json hash (read_full n []) ≡ failed (tail_error json n)
  unfolding sized decoded read_full
  sized-tail hash zero = rw json.no_text.1 refl
  sized-tail hash (suc n) = rw (lt→ltb 0 (suc n) (omega arith)) refl

  restore_round-tail :
      (sum hash : ℕ) → restore_round json (be32 sum) hash ≡ failed (sum_error json sum)
  unfolding restore_round numbered read_number be32
  restore_round-tail sum hash = sized-tail hash (be_value (be32 sum))

  restore_round-frame :
      (d s : Bytes) (hash : ℕ) (e : CacheEntry)
      → length d < 2 ^ 32
      → json.unmarshal_entry d ≡ ok e
      → restore_round json (be32 (length d) ++ (d ++ s)) hash ≡ entry e s (crc32 hash d)
  unfolding restore_round numbered sized decoded
  restore_round-frame d s hash e short back =
      rw (read_number-be32 (length d) (d ++ s) short) (rw (read_full-append d s) (rw back refl))

  restore_loop-frames :
      (es : List (Bytes × CacheEntry)) (ds : List Bytes) (fuel sum hash : ℕ) (c : Cache)
      → Marshalled json es ds
      → All (IsKept json) es
      → length (frames ds ++ be32 sum) < fuel
      → restore_loop json now fuel (frames ds ++ be32 sum) hash c
        ≡ (set_all now es c >>= (λ c'. done (c', sum_error json sum)))
  unfolding restore_loop after_round
  restore_loop-frames es ds zero sum hash c m k lt = absurd (omega arith)
  restore_loop-frames [] [] (suc fuel) sum hash c m k lt =
      unfold set_all in rw (restore_round-tail sum hash) refl
  restore_loop-frames [] (d ∷ ds) (suc fuel) sum hash c m k lt = absurd m
  restore_loop-frames (x ∷ es) [] (suc fuel) sum hash c m k lt = absurd m
  restore_loop-frames (x ∷ es) (d ∷ ds) (suc fuel) sum hash c m k lt =
      let (e, back, same) = json.entry_back x.1 d k.0.ascii m.0 in
      let s = frames ds ++ be32 sum in
      let layout : be32 (length d) ++ (d ++ frames ds) ++ be32 sum ≡ be32 (length d) ++ (d ++ s) =
        simp append_assoc refl in
      let fewer : length s < fuel = omega (
        arith,
        ap length layout,
        length-append (be32 (length d)) (d ++ s),
        length-append d s,
        length-be32 (length d),
      ) in
      rw
        (
          layout,
          restore_round-frame d s hash e (k.0.short d m.0) back,
          set_entry-SameEntry c x.1 e same,
          set_all-set_entry now x es c,
        )
        (bind-again (set_entry now c x.1) _ (set_all now es) (sum_error json sum)
          (λ c'. restore_loop-frames es ds fuel sum (crc32 hash d) c' m.1 k.1 fewer))

-- The sizes of the entries, summed.
abbrev pub sizes : List (Bytes × CacheEntry) → ℕ
sizes [] = 0
sizes (x ∷ es) = x.1.size + sizes es

sizes-append : (xs ys : List (Bytes × CacheEntry)) → sizes (xs ++ ys) ≡ sizes xs + sizes ys
sizes-append [] ys = omega arith
sizes-append (x ∷ xs) ys = omega (arith, sizes-append xs ys)

total-sizes : (xs : List (Bytes × CacheEntry)) → total (λ (e : CacheEntry). e.size) xs ≡ sizes xs
total-sizes [] = refl
total-sizes (x ∷ xs) = omega (arith, total-sizes xs)

total_entries-length : (shards : List Shard) → total_entries shards ≡ length (all_entries shards)
total_entries-length [] = refl
total_entries-length (s ∷ shards) =
    omega (arith, total_entries-length shards, length-append s.entries (all_entries shards))

total_memory-sizes : (shards : List Shard) → total_memory shards ≡ u64 (sizes (all_entries shards))
total_memory-sizes [] = refl
total_memory-sizes (s ∷ shards) = omega (
  arith,
  total_memory-sizes shards,
  total-sizes s.entries,
  sizes-append s.entries (all_entries shards),
)

-- The header fits into the four bytes of its length.
abbrev pub HasShortHeader : Json → Cache → ℕ → Type 0
HasShortHeader json c now =
    (d : Bytes) → json.marshal_header (header_of c now) ≡ ok d → length d < 2 ^ 32

module _ (json : Json) (faults : Faults) (c : Cache) (written : ℕ) (file : Bytes)
    (made : snapshot_file json faults c written ≡ ok file)
    (short : HasShortHeader json c written) where
  read_snapshot-header_of : read_snapshot json (ok file) ≡ ok (header_of c written)
  unfolding read_snapshot
  read_snapshot-header_of =
      let p = snapshot_file-Parts json faults c written file made in
      rw (p.whole) (
        rw
          (read_header-preamble json _ _ p.head _ (header_of c written) (short p.head p.header)
            (json.header_back (header_of c written) p.head p.header))
          refl)

  -- `ReadSnapshot` of a file that `WriteSnapshot` wrote, whose header fits into the four bytes of its
  -- length, returns a header with the version 1, the time of the snapshot, the number of the cache's
  -- entries, and the sum of their sizes, wrapped to 64 bits.
  pub read_snapshot-written :
      read_snapshot json (ok file)
      ≡ ok (record {
        version = 1;
        created_at = written;
        entry_count = length (all_entries c.shards);
        memory_usage = u64 (sizes (all_entries c.shards));
      })
  read_snapshot-written =
      read_snapshot-header_of ∙ rw (total_entries-length c.shards, total_memory-sizes c.shards) refl

  -- `RestoreFromSnapshot` of a file that `WriteSnapshot` wrote, in an open cache, where each key of the
  -- written cache is in ASCII, and the header and each entry fit into the four bytes of their length: the
  -- entries of the written cache are set, all of them in their order and each with its time to live
  -- counted anew, and then the checksum over the data of the entries, which is at the end of the file, is
  -- taken for the length of one more entry, which is the error that is returned.
  pub restore-written :
      (now : ℕ) (target : Cache)
      → All (IsKept json) (all_entries c.shards)
      → target.closed ≡ false
      → (pieces : List Bytes) × Marshalled json (all_entries c.shards) pieces
        × (restore_from_snapshot json now target (ok file) ≡ (
            set_all now (all_entries c.shards) target
            >>= (λ c'. done (c', sum_error json (sum_of 0 pieces)))))
  unfolding restore_from_snapshot restore_start started
  restore-written now target kept is_open =
      let p = snapshot_file-Parts json faults c written file made in
      let s = frames p.pieces ++ be32 (sum_of 0 p.pieces) in
      (
        p.pieces,
        p.marshalled,
        simp is_open (
            rw (p.whole) (
              rw
                (read_header-preamble json _ _ p.head s (header_of c written)
                  (short p.head p.header) (json.header_back (header_of c written) p.head p.header))
                (restore_loop-frames json now (all_entries c.shards) p.pieces (suc (length s))
                  (sum_of 0 p.pieces) 0 target p.marshalled kept (omega arith)))),
      )
