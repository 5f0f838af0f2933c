-- ===== src/L0/Snapshot/Write.antt =====
-- pkg/l0/snapshot.go: the file that `WriteSnapshot` writes.
use tieredcache.Base.{
  ℕ, ◌+◌, List, [], ◌∷◌, ◌++◌, Option, none, some, Bytes, str, length, add64, be32, crc32, total,
  Result, ok, fail,
}
use tieredcache.Common.Errors.{GoError, text, wrap}
use tieredcache.Common.Entry.{CacheEntry}
use tieredcache.L0.State.{Shard, Cache}
use tieredcache.L0.Snapshot.{SnapshotHeader, Json, ◌>>=◌, or_fail, snapshot_version, snapshot_magic}

-- The calls of the system that `WriteSnapshot` makes, in their order; those of an entry by its number.
pub data Step : Type 0 where
  make_folder create magic version header_length header : Step
  entry_length entry : ℕ → Step
  checksum sync close_file rename : Step

-- The text of the error of each call that fails.
abbrev pub Faults : Type 0
Faults = Step → Option Bytes

abbrev pub no_faults : Faults
no_faults step = none

-- A call that adds bytes to the file.
unfoldable pub put : Faults → Step → Bytes → Bytes → Bytes → Result GoError Bytes
put faults step message bytes file = elim (faults step) [
  | none ↦ ok (file ++ bytes)
  | some err ↦ fail (wrap message (text err))
]

-- Where the loop over the entries stands: the file, the hash of the data, and `entryCount`.
pub record Writing : Type 0 where
  pub file : Bytes
  pub hash : ℕ
  pub entry_count : ℕ

abbrev pub marshal_failed : Bytes → Bytes
marshal_failed key = str "failed to marshal entry " ++ (key ++ str ": ")

module _ (json : Json) (faults : Faults) where
  -- One round of the inner loop.
  unfoldable pub put_entry : Bytes × CacheEntry → Writing → Result GoError Writing
  put_entry (key, e) w = do
    d ← or_fail (marshal_failed key) (json.marshal_entry e)
    file ←
        put faults (entry_length w.entry_count) (str "failed to write entry length: ")
          (be32 (length d)) w.file
    file' ← put faults (entry w.entry_count) (str "failed to write entry: ") d file
    ok (record { file = file'; hash = crc32 w.hash d; entry_count = w.entry_count + 1 })

  unfoldable pub put_entries : List (Bytes × CacheEntry) → Writing → Result GoError Writing
  put_entries [] w = ok w
  put_entries (x ∷ entries) w = do w' ← put_entry x w; put_entries entries w'

  unfoldable pub put_shards : List Shard → Writing → Result GoError Writing
  put_shards [] w = ok w
  put_shards (s ∷ shards) w = do w' ← put_entries s.entries w; put_shards shards w'

-- `totalEntries` and `totalMemory`, an int and a uint64.
abbrev pub total_entries : List Shard → ℕ
total_entries [] = 0
total_entries (s ∷ shards) = length s.entries + total_entries shards

abbrev pub total_memory : List Shard → ℕ
total_memory [] = 0
total_memory (s ∷ shards) =
    add64 (total (λ (e : CacheEntry). e.size) s.entries) (total_memory shards)

abbrev pub header_of : Cache → ℕ → SnapshotHeader
header_of c now = record {
  version = snapshot_version;
  created_at = now;
  entry_count = total_entries c.shards;
  memory_usage = total_memory c.shards;
}

-- `WriteSnapshot` from the folder to the rename: the bytes of the file, or the error. After an
-- error the temporary file is removed.
unfoldable pub snapshot_file : Json → Faults → Cache → ℕ → Result GoError Bytes
snapshot_file json faults c now = do
  f0 ← put faults make_folder (str "failed to create snapshot directory: ") [] []
  f1 ← put faults create (str "failed to create temp snapshot file: ") [] f0
  f2 ← put faults magic (str "failed to write magic number: ") (be32 snapshot_magic) f1
  f3 ← put faults version (str "failed to write version: ") (be32 snapshot_version) f2
  h ← or_fail (str "failed to marshal header: ") (json.marshal_header (header_of c now))
  f4 ← put faults header_length (str "failed to write header length: ") (be32 (length h)) f3
  f5 ← put faults header (str "failed to write header: ") h f4
  w ← put_shards json faults c.shards (record { file = f5; hash = 0; entry_count = 0 })
  f6 ← put faults checksum (str "failed to write checksum: ") (be32 w.hash) w.file
  f7 ← put faults sync (str "failed to sync snapshot: ") [] f6
  f8 ← put faults close_file (str "failed to close snapshot file: ") [] f7
  put faults rename (str "failed to commit snapshot: ") [] f8
