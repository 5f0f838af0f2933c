-- ===== src/Replay/Log.antt =====
-- pkg/replay/recovery.go: `replayWAL` over the bytes of the log file.
-- The file is read as it is: each `Read` gives as many bytes as are left, up to the buffer's size,
-- without an I/O error, and the context is not cancelled on the way.
pub mod Fuel
pub mod Frames
pub mod Recovered
pub mod Torn
use tieredcache.Base.{
  ℕ, zero, suc, ◌+◌, ◌≡◌, Bool, true, false, List, [], ◌∷◌, ◌++◌, Option, none, some, Bytes, length,
  take, drop, ltb, leb, ◌==◌, ◌&&◌, not, if◌then◌else◌, add64, is_empty,
}
use tieredcache.Common.Entry.{wal_header_size, max_wal_entry_size}
use tieredcache.Replay.Entry.{WalEntry, Codec, verify_checksum}
use tieredcache.Replay.Frame.{be64_value, decode_entry}

-- The entries found, and the counters `corruptedSize` and `skippedEntries` of the manager.
pub record Found : Type 0 where
  pub entries : List WalEntry
  pub corrupted_size : ℕ
  pub skipped_entries : ℕ

abbrev pub corrupt : ℕ → Found → Found
corrupt n r = record r {
  corrupted_size = add64 r.corrupted_size n;
  skipped_entries = add64 r.skipped_entries 1;
}

-- What is done with a decoded entry, or with data that is none.
unfoldable pub keep_entry : ℕ → ℕ → Option WalEntry → Found → Found
keep_entry checkpoint size none r = corrupt (size + wal_header_size) r
keep_entry checkpoint size (some e) r =
    if leb e.sequence checkpoint
    then r
    else if not (verify_checksum e)
    then corrupt (size + wal_header_size) r
    else record r { entries = r.entries ++ e ∷ [] }

-- How a round ends: the loop is left, or goes on with the bytes that follow.
pub data Round : Type 0 where
  stop : Found → Round
  next : Bytes → Found → Round

module _ (codec : Codec) (checkpoint : ℕ) where
  -- The end of the loop's body, once the data is read in full.
  unfoldable pub keep : Bytes → Found → Found
  keep d r = keep_entry checkpoint (length d) (decode_entry codec d) r

  -- One round of the loop on the bytes that are left.
  unfoldable pub round : Bytes → Found → Round
  round rest r =
      let header = take wal_header_size rest in
      let size = be64_value header in
      let body = take size (drop wal_header_size rest) in
      if is_empty rest
      then stop r
      else if ltb (length header) wal_header_size
      then stop r
      else if ltb max_wal_entry_size size
      then stop (corrupt wal_header_size r)
      else if is_empty body && not (size == 0)
      then stop r
      else if ltb (length body) size
      then stop (corrupt (length body + wal_header_size) r)
      else next (drop size (drop wal_header_size rest)) (keep body r)

  -- The loop; `none` means that the fuel ran out.
  unfoldable pub replay_loop : ℕ → Bytes → Found → Option Found
  replay_loop zero rest r = none
  replay_loop (suc fuel) rest r = elim (round rest r) [
    | stop r' ↦ some r'
    | next rest' r' ↦ replay_loop fuel rest' r'
  ]

  -- `replayWAL` of an existing file. A round that goes on has read eight bytes at least.
  unfoldable pub replay_wal : Bytes → Found → Option Found
  unfolding replay_loop
  replay_wal file r = replay_loop (suc (length file)) file r
