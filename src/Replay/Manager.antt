-- ===== src/Replay/Manager.antt =====
-- pkg/replay/recovery.go: `RecoveryManager`, with the files that outlive it.
pub mod Written
pub mod Sequence
pub mod Restart
use tieredcache.Base.{
  ℕ, ◌+◌, ◌%◌, ◌≡◌, Bool, true, false, List, [], ◌∷◌, ◌++◌, Option, none, some, Bytes, str, decimal,
  take, length, ltb, leb, ◌==◌, ◌&&◌, not, if◌then◌else◌, add64, is_empty, insert, Result, ok, fail,
}
use tieredcache.Common.Entry.{default_checkpoint_interval, default_max_replay_workers}
use tieredcache.Replay.Entry.{WalEntry, Time, Codec, compute_checksum}
use tieredcache.Replay.Frame.{encode_entry}
use tieredcache.Replay.Log.{Found, replay_wal}

-- The files: `wal.log`, and the checkpoints by name. A checkpoint that can be read and parsed
-- stands as its sequence number, any other file or directory as `none`.
pub record Disk : Type 0 where
  pub wal : Bytes
  pub checkpoints : List (Bytes × Option ℕ)

-- The manager. `pending` counts the checkpoints that `Write` has started as goroutines and that
-- have not run yet. The open file is the log of the disk.
pub record Manager : Type 0 where
  pub has_checkpoint_path : Bool
  pub max_workers : ℕ
  pub checkpoint_interval : ℕ
  pub sequence : ℕ
  pub closed : Bool
  pub skipped_entries : ℕ
  pub corrupted_size : ℕ
  pub last_checkpoint : ℕ
  pub pending : ℕ
  pub disk : Disk

pub data ReplayError : Type 0 where
  empty_wal_path recovery_closed encode_failed write_failed no_fuel_left : ReplayError

-- `NewRecoveryManager` and `initWAL`, when the directories and the file can be opened; a size that
-- is not positive is given as 0.
unfoldable pub new_recovery_manager : Bytes → Bytes → ℕ → ℕ → Disk → Result ReplayError Manager
new_recovery_manager wal_path checkpoint_path workers interval disk =
    if is_empty wal_path
    then fail empty_wal_path
    else ok (record {
      has_checkpoint_path = not (is_empty checkpoint_path);
      max_workers = if workers == 0 then default_max_replay_workers else workers;
      checkpoint_interval = if interval == 0 then default_checkpoint_interval else interval;
      sequence = 0;
      closed = false;
      skipped_entries = 0;
      corrupted_size = 0;
      last_checkpoint = 0;
      pending = 0;
      disk = disk;
    })

-- The entry as `Write` fills it in.
unfoldable pub stamp : ℕ → Time → WalEntry → WalEntry
stamp n now e =
    let e' = record e { sequence = n; timestamp = now } in
    record e' { checksum = compute_checksum e' }

abbrev pub append_wal : Bytes → Manager → Manager
append_wal bytes m = record m { disk = record m.disk { wal = m.disk.wal ++ bytes } }

abbrev pub count : Manager → Manager
count m = record m { sequence = add64 m.sequence 1 }

-- The end of `Write`: the encoded entry goes to the file. `fault` is the number of bytes that
-- an I/O error lets through, `none` when there is no error.
unfoldable pub write_encoded : Option ℕ → Option Bytes → Manager → Option ReplayError × Manager
write_encoded fault none m = (some encode_failed, m)
write_encoded (some k) (some bytes) m = (some write_failed, append_wal (take k bytes) m)
write_encoded none (some bytes) m =
    let m' = append_wal bytes m in
    (
      none,
      if m'.sequence % m'.checkpoint_interval == 0
          then record m' { pending = m'.pending + 1 }
          else m',
    )

-- `Write`
unfoldable pub write : Codec → Time → Option ℕ → WalEntry → Manager → Option ReplayError × Manager
write codec now fault e m =
    if m.closed
    then (some recovery_closed, m)
    else let m' = count m in write_encoded fault (encode_entry codec (stamp m'.sequence now e)) m'

-- `checkpoint_%d.json`
abbrev pub checkpoint_name : ℕ → Bytes
checkpoint_name n = str "checkpoint_" ++ (decimal n ++ str ".json")

-- `checkpoint`, when the file can be written.
unfoldable pub checkpoint : Manager → Manager
checkpoint m =
    if m.has_checkpoint_path
    then record m {
      last_checkpoint = m.sequence;
      disk = record m.disk {
        checkpoints = insert (checkpoint_name m.sequence) (some m.sequence) m.disk.checkpoints;
      };
    }
    else m

-- The loop of `findLatestCheckpoint`
unfoldable pub latest_of : List (Bytes × Option ℕ) → ℕ → ℕ
latest_of [] latest = latest
latest_of ((_, none) ∷ files) latest = latest_of files latest
latest_of ((_, some n) ∷ files) latest = latest_of files (if ltb latest n then n else latest)

-- `findLatestCheckpoint`, when the directory can be read.
unfoldable pub find_latest_checkpoint : Manager → ℕ
find_latest_checkpoint m = if m.has_checkpoint_path then latest_of m.disk.checkpoints 0 else 0

-- The sequence number after recovery: that of the last entry, if there is one.
unfoldable pub last_sequence : List WalEntry → ℕ → ℕ
last_sequence [] n = n
last_sequence (e ∷ es) n = last_sequence es e.sequence

-- `Close`, when the file can be synced and closed.
unfoldable pub close : Manager → Manager
close m = if m.closed then m else record m { closed = true }

-- The scan that `Recover` makes, with the counters it starts from.
unfoldable pub scan : Codec → Manager → Option Found
scan codec m = replay_wal codec (find_latest_checkpoint m) m.disk.wal (record {
  entries = [];
  corrupted_size = m.corrupted_size;
  skipped_entries = m.skipped_entries;
})

-- The counters and the sequence number that `Recover` leaves in the manager.
unfoldable pub after_scan : Found → Manager → Manager
after_scan r m = record m {
  corrupted_size = r.corrupted_size;
  skipped_entries = r.skipped_entries;
  sequence = last_sequence r.entries m.sequence;
}

-- `Recover`, when every entry can be applied: the entries handed to the workers, and the manager.
unfoldable pub recover : Codec → Manager → Result ReplayError (List WalEntry × Manager)
recover codec m =
    if m.closed
    then fail recovery_closed
    else elim (scan codec m) [ none ↦ fail no_fuel_left | some r ↦ ok (r.entries, after_scan r m) ]
