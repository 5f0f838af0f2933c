-- ===== src/Replay/Tests.antt =====
-- pkg/replay/recovery.go: the theorems at concrete logs, managers and pools.
use tieredcache.Base.{
  ℕ, ◌+◌, ◌≡◌, refl, List, [], ◌∷◌, ◌++◌, none, some, Bytes, str, length, take, arith, replicate,
  ok, ◌==◌, if◌then◌else◌, fnv64a, length-replicate,
}
use tieredcache.Common.Entry.{max_wal_entry_size}
use tieredcache.Replay.Entry.{op_set, Time, WalEntry, be64}
use tieredcache.Replay.Frame.{frame, be64_value, decode_entry}
use tieredcache.Replay.Log.{Found, replay_wal, replay_loop, round, keep, keep_entry}
use tieredcache.Replay.Log.Fuel.{replay_wal_total}
use tieredcache.Replay.Log.Frames.{frames}
use tieredcache.Replay.Log.Recovered.{accepted, replay_wal-accepted}
use tieredcache.Replay.Log.Torn.{replay_wal-torn}
use tieredcache.Replay.Sample.{codec_a, encode, disk_of, manager_of, moment}
use tieredcache.Replay.Manager.{
  latest_of, after_scan, last_sequence, Manager, stamp, write, scan, recover,
  find_latest_checkpoint, new_recovery_manager,
}
use tieredcache.Replay.Manager.Written.{back, hashed, write-recovered}
use tieredcache.Replay.Manager.Restart.{restart-skips}
use tieredcache.Replay.Manager.Sequence.{
  Call, call_write, call_checkpoint, call_close, IsLog, after_all, after_all-IsLog,
}

abbrev entry_a : WalEntry
entry_a = record {
  sequence = 0;
  timestamp = record { wall = []; monotonic = none };
  operation = op_set;
  key = str "k";
  value = str "v";
  metadata = [];
  tier = 0;
  checksum = 0;
}

abbrev none_found : Found
none_found = record { entries = []; corrupted_size = 0; skipped_entries = 0 }

-- The data of an entry that was written at some moment with some number.
abbrev data_of : ℕ → Time → Bytes
data_of n now = encode (stamp n now entry_a)

replay_wal_total_example :
    (r' : Found) × (replay_wal codec_a 0 (str "not a log at all") none_found ≡ some r')
replay_wal_total_example = replay_wal_total codec_a 0 (str "not a log at all") none_found

abbrev log_b : List Bytes
log_b = (9 ∷ []) ∷ []

abbrev log_a : List Bytes
log_a = (1 ∷ 2 ∷ []) ∷ (9 ∷ 0 ∷ 0 ∷ 5 ∷ 0 ∷ 1 ∷ 107 ∷ []) ∷ []

replay_wal-accepted_example :
    (r' : Found) × (replay_wal codec_a 3 (frames log_a ++ []) none_found ≡ some r')
    × (r'.entries ≡ [] ++ accepted codec_a 3 log_a)
replay_wal-accepted_example =
    replay_wal-accepted codec_a 3 log_a none_found (omega arith, (omega arith, tt))

replay_wal-torn_example :
    (r' : Found) × (replay_wal codec_a 3
        (frames log_a ++ take 10 (frame (7 ∷ 7 ∷ 7 ∷ [])))
        none_found
      ≡ some r')
    × (r'.entries ≡ [] ++ accepted codec_a 3 log_a)
replay_wal-torn_example =
    replay_wal-torn codec_a 3 log_a (7 ∷ 7 ∷ 7 ∷ []) 10 none_found (omega arith, (omega arith, tt))
      (omega arith) (unfold frame be64 in omega arith)

write-recovered_example :
    (r' : Found) × (replay_wal codec_a 4
        (write codec_a moment none entry_a (manager_of (frames log_a) 8)).1.disk.wal
        none_found
      ≡ some r')
    × (r'.entries
        ≡ []
          ++ (accepted codec_a 4 log_a
              ++ (if fnv64a (hashed 9 moment entry_a)
                    == fnv64a (hashed 9 (record moment { monotonic = none }) entry_a)
                  then back 9 moment entry_a ∷ []
                  else [])))
write-recovered_example =
    write-recovered codec_a moment entry_a (manager_of (frames log_a) 8) log_a (data_of 9 moment) 4
      none_found (omega arith, (omega arith, tt)) refl
      (record {
        not_closed = refl;
        ascii = refl;
        plain = refl;
        encoded = refl;
        readable = unfold stamp in omega arith;
      })
      (omega arith)

-- What recovery leaves of a manager that is opened on a log with one broken record.
abbrev recovered_b : Manager
recovered_b = record (manager_of (frames log_b) 0) { corrupted_size = 9; skipped_entries = 1 }

checkpoint_of_b : find_latest_checkpoint (manager_of (frames log_b) 0) ≡ 7
unfolding find_latest_checkpoint latest_of
checkpoint_of_b = refl

opened_b :
    new_recovery_manager (str "wal") (str "cp") 2 100 (disk_of (frames log_b))
    ≡ ok (manager_of (frames log_b) 0)
unfolding new_recovery_manager
opened_b = refl

recover_b : recover codec_a (manager_of (frames log_b) 0) ≡ ok ([], recovered_b)
unfolding recover after_scan scan replay_wal replay_loop round keep keep_entry frame be64 be64_value
    last_sequence decode_entry find_latest_checkpoint latest_of
recover_b = refl

accepted_b : accepted codec_a (find_latest_checkpoint (manager_of (frames log_b) 0)) log_b ≡ []
unfolding decode_entry
accepted_b = refl

restart-skips_example :
    ((write codec_a moment none entry_a recovered_b).1.sequence ≡ 1)
    × (r : Found) × (scan codec_a (record (manager_of [] 0) {
      disk = (write codec_a moment none entry_a recovered_b).1.disk;
    })
        ≡ some r)
    × (r.entries ≡ [])
restart-skips_example =
    restart-skips codec_a (str "wal") (str "cp") 2 100 (disk_of (frames log_b))
      (manager_of (frames log_b) 0) recovered_b
      (record (manager_of [] 0) { disk = (write codec_a moment none entry_a recovered_b).1.disk })
      log_b moment entry_a (data_of 1 moment) opened_b (omega (arith, checkpoint_of_b)) refl
      (omega arith, tt) accepted_b recover_b
      (record {
        not_closed = refl;
        ascii = refl;
        plain = refl;
        encoded = refl;
        readable = unfold stamp in omega arith;
      })
      refl refl

abbrev calls_a : List (Call codec_a)
calls_a = call_write moment entry_a ∷ call_checkpoint ∷ call_write moment entry_a ∷ call_close ∷ []

after_all-IsLog_example : IsLog codec_a 0 (after_all codec_a calls_a (manager_of [] 0))
after_all-IsLog_example =
    after_all-IsLog codec_a 0 calls_a (manager_of [] 0)
      ((refl, refl), (tt, ((refl, refl), (tt, tt)))) (omega arith) ([], refl, omega arith)

-- One byte more than `replayWAL` accepts.
unfoldable big_data : Bytes
big_data = replicate (max_wal_entry_size + 1) 0

length-big_data : length big_data ≡ max_wal_entry_size + 1
unfolding big_data
length-big_data = length-replicate {0} {A = ℕ} (max_wal_entry_size + 1) 0
