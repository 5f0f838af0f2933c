-- ===== src/L0/Snapshot/Tests.antt =====
-- Runs of the snapshots on small inputs, and instances of their theorems.
use tieredcache.L0.Snapshot.Written.{Marshalled, sum_of}
use tieredcache.Base.{
  All, List, ℕ, zero, suc, ◌<◌, ◌^◌, ◌≡◌, sym, subst, refl, true, [], ◌∷◌, ◌++◌, none, some, Bytes,
  str, length, take, drop, ℤ, pos, negsuc, arith, take-length-append, drop-length-append, be32,
  crc32, bytes_eq, decimal, done, ◌>>=◌, Result, ok, fail, Returns,
}
use tieredcache.Common.Errors.{GoError, nil}
use tieredcache.Common.Entry.{CacheEntry, new_cache_entry}
use tieredcache.L0.Sample.{cache_a, cache_a-IsCache, entry_a}
use tieredcache.L0.Snapshot.{SnapshotHeader, Json, SameEntry}
use tieredcache.L0.Snapshot.Write.{
  Faults, no_faults, put, put_entry, put_entries, put_shards, snapshot_file, sync,
}
use tieredcache.L0.Snapshot.Folder.{
  SnapFile, Folder, bytes_ltb, latest_snapshot, find_latest_snapshot, snapshot_name,
}
use tieredcache.L0.Snapshot.Calls.{snapshot, l0_close, l0_close-silent, write_snapshot}
use tieredcache.L0.Snapshot.Restore.{read_snapshot}
use tieredcache.L0.Snapshot.Loop.{restore_from_snapshot}
use tieredcache.L0.Snapshot.Never.{IsFailure, restore-IsFailure}
use tieredcache.L0.Snapshot.Written.{all_entries}
use tieredcache.L0.Snapshot.Back.{
  HasShortHeader, IsKept, set_all, sum_error, read_snapshot-written, restore-written,
}
use tieredcache.L0.Snapshot.Outcome.{IsLast}

-- A text of numbers for headers and entries.
abbrev header_text : SnapshotHeader → Bytes
header_text h = h.version ∷ h.created_at ∷ h.entry_count ∷ h.memory_usage ∷ []

abbrev header_value : Bytes → Result Bytes SnapshotHeader
header_value (v ∷ t ∷ n ∷ m ∷ []) =
    ok (record { version = v; created_at = t; entry_count = n; memory_usage = m })
header_value _ = fail (str "no header")

abbrev ttl_text : ℤ → Bytes
ttl_text (pos n) = 0 ∷ n ∷ []
ttl_text (negsuc n) = 1 ∷ n ∷ []

abbrev entry_text : CacheEntry → Bytes
entry_text e = ttl_text e.ttl ++ (length e.key ∷ (e.key ++ e.value))

abbrev ttl_value : ℕ → ℕ → ℤ
ttl_value zero n = pos n
ttl_value (suc _) n = negsuc n

abbrev entry_value : Bytes → Result Bytes CacheEntry
entry_value (a ∷ n ∷ k ∷ s) =
    ok (record (new_cache_entry (take k s) (drop k s) (ttl_value a n) 0) { access_count = 0 })
entry_value _ = fail (str "no entry")

text-inj : (a b : Bytes) → ◌≡◌ {A = Result Bytes Bytes} (ok a) (ok b) → a ≡ b
text-inj a b e = cc

header_value-header_text :
    (h : SnapshotHeader) (d : Bytes)
    → ◌≡◌ {A = Result Bytes Bytes} (ok (header_text h)) (ok d)
    → header_value d ≡ ok h
header_value-header_text h d e =
    subst (λ t. header_value t ≡ ok h) (text-inj (header_text h) d e) refl

ttl_value-ttl_text :
    (t : ℤ) (s : Bytes) (e : CacheEntry)
    → e.ttl ≡ t
    → (e' : CacheEntry) × (entry_value (ttl_text t ++ (length e.key ∷ (e.key ++ e.value))) ≡ ok e')
      × SameEntry e e'
unfolding new_cache_entry
ttl_value-ttl_text (pos n) s e h = (
  _,
  refl,
  record {
    key = take-length-append e.key e.value;
    value = drop-length-append e.key e.value;
    ttl = sym h;
  },
)
ttl_value-ttl_text (negsuc n) s e h = (
  _,
  refl,
  record {
    key = take-length-append e.key e.value;
    value = drop-length-append e.key e.value;
    ttl = sym h;
  },
)

entry_value-entry_text :
    (e : CacheEntry) (d : Bytes)
    → ◌≡◌ {A = Result Bytes Bytes} (ok (entry_text e)) (ok d)
    → (e' : CacheEntry) × (entry_value d ≡ ok e') × SameEntry e e'
entry_value-entry_text e d h =
    subst (λ t. (e' : CacheEntry) × (entry_value t ≡ ok e') × SameEntry e e') (cc)
      (ttl_value-ttl_text e.ttl d e refl)

abbrev json_a : Json
json_a = record {
  marshal_header = λ h. ok (header_text h);
  unmarshal_header = header_value;
  marshal_entry = λ e. ok (entry_text e);
  unmarshal_entry = entry_value;
  header_back = header_value-header_text;
  entry_back = λ e d _ h. entry_value-entry_text e d h;
  no_text = (str "no entry", refl);
}

-- The snapshot of a cache with one entry.
abbrev file_a : Bytes
file_a =
    be32 0x534E4150
    ++ (be32 1
        ++ (be32 4
            ++ (1 ∷ 500 ∷ 1 ∷ 2 ∷ be32 6
                ++ (0 ∷ 50 ∷ 1 ∷ b'a' ∷ 7 ∷ 8 ∷ be32 (crc32 0 (0 ∷ 50 ∷ 1 ∷ b'a' ∷ 7 ∷ 8 ∷ []))))))

file_a_written : snapshot_file json_a no_faults cache_a 500 ≡ ok file_a
unfolding snapshot_file put put_shards put_entries put_entry be32
file_a_written = refl

short_header : HasShortHeader json_a cache_a 500
short_header d e =
    subst (λ t. length t < 2 ^ 32) (text-inj (1 ∷ 500 ∷ 1 ∷ 2 ∷ []) d e) (omega arith)

entries-IsKept : All (IsKept json_a) (all_entries cache_a.shards)
entries-IsKept = (
  record {
    ascii = refl;
    short = λ d e. subst (λ t. length t < 2 ^ 32) (text-inj (entry_text entry_a) d e) (omega arith);
  },
  tt,
)

read_snapshot-written_example :
    read_snapshot json_a (ok file_a)
    ≡ ok (record { version = 1; created_at = 500; entry_count = 1; memory_usage = 2 })
read_snapshot-written_example =
    read_snapshot-written json_a no_faults cache_a 500 file_a file_a_written short_header

restore-written_example :
    (pieces : List Bytes) × Marshalled json_a (all_entries cache_a.shards) pieces
    × (restore_from_snapshot json_a 600 cache_a (ok file_a) ≡ (
        set_all 600 (all_entries cache_a.shards) cache_a
        >>= (λ c'. done (c', sum_error json_a (sum_of 0 pieces)))))
restore-written_example =
    restore-written json_a no_faults cache_a 500 file_a file_a_written short_header 600 cache_a
      entries-IsKept refl

restore-IsFailure_example : Returns (restore_from_snapshot json_a 600 cache_a (ok file_a)) IsFailure
restore-IsFailure_example = restore-IsFailure json_a 600 cache_a (ok file_a) cache_a-IsCache

l0_close-silent_example :
    (snapshot json_a no_faults 500 cache_a [] ≡ (nil, cache_a, []))
    × (l0_close json_a no_faults 500 cache_a [] ≡ (nil, record cache_a { closed = true }, []))
l0_close-silent_example = l0_close-silent json_a no_faults 500 [] cache_a

-- Files of an earlier time.
abbrev file_at : ℕ → SnapFile
file_at t = record { name = snapshot_name t; content = []; mod_time = some t }

abbrev folder_a : Folder
folder_a = file_at 100 ∷ file_at 200 ∷ file_at 300 ∷ []

abbrev sync_fault : Faults
sync_fault sync = some (str "disk full")
sync_fault _ = none

names_before : IsLast (snapshot_name 500) folder_a
unfolding decimal bytes_eq bytes_ltb
names_before = ((refl, refl), ((refl, refl), ((refl, refl), tt)))

-- A snapshot that cannot be synced leaves the three old files.
not_synced :
    (err : GoError) × (write_snapshot json_a sync_fault 500 cache_a folder_a
      ≡ (err, cache_a, folder_a))
unfolding write_snapshot snapshot_file put put_shards put_entries put_entry
not_synced = (_, refl)

latest_is_newest :
    find_latest_snapshot (file_at 100 ∷ file_at 300 ∷ file_at 200 ∷ []) ≡ ok (file_at 300)
unfolding find_latest_snapshot latest_snapshot
latest_is_newest = refl
