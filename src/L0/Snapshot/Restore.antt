-- ===== src/L0/Snapshot/Restore.antt =====
-- pkg/l0/snapshot.go: `ReadSnapshot`, and the start of `RestoreFromSnapshot`, on the bytes of a file.
-- A file that cannot be opened is the text of the error; no read fails but at the end of the file.
use tieredcache.Base.{
  ℕ, ◌++◌, Bytes, str, length, take, drop, ltb, ◌==◌, not, if◌then◌else◌, is_empty, be_value,
  decimal, hexadecimal, Result, ok, fail,
}
use tieredcache.Common.Errors.{GoError, text, wrap}
use tieredcache.L0.Snapshot.{SnapshotHeader, Json, ◌>>=◌, or_fail, snapshot_version, snapshot_magic}

-- `io.ReadFull` of a number of bytes, with those that follow.
unfoldable pub read_full : ℕ → Bytes → Result Bytes (Bytes × Bytes)
read_full n s =
    if ltb (length s) n
    then fail (if is_empty s then str "EOF" else str "unexpected EOF")
    else ok (take n s, drop n s)

-- `binary.Read` of a uint32: nothing is left, too little is left, or the number and the rest.
pub data Number : Type 0 where
  at_end : Number
  cut_short : Number
  number : ℕ → Bytes → Number

unfoldable pub read_number : Bytes → Number
read_number s =
    if is_empty s
    then at_end
    else if ltb (length s) 4
    then cut_short
    else number (be_value (take 4 s)) (drop 4 s)

abbrev pub number_or_fail : Bytes → Number → Result GoError (ℕ × Bytes)
number_or_fail message at_end = fail (wrap message (text (str "EOF")))
number_or_fail message cut_short = fail (wrap message (text (str "unexpected EOF")))
number_or_fail message (number n s) = ok (n, s)

-- The part that both functions share, up to the text of two errors: magic number, version and
-- header are read and checked. The result is the header and what follows it.
unfoldable pub read_header :
    Json → (ℕ → Bytes) → (ℕ → Bytes) → Bytes → Result GoError (SnapshotHeader × Bytes)
read_header json bad_magic bad_version s0 = do
  (magic, s1) ← number_or_fail (str "failed to read magic number: ") (read_number s0)
  if not (magic == snapshot_magic) then fail (text (bad_magic magic)) else do
    (version, s2) ← number_or_fail (str "failed to read version: ") (read_number s1)
    if not (version == snapshot_version) then fail (text (bad_version version)) else do
      (n, s3) ← number_or_fail (str "failed to read header length: ") (read_number s2)
      (d, s4) ← or_fail (str "failed to read header: ") (read_full n s3)
      h ← or_fail (str "failed to unmarshal header: ") (json.unmarshal_header d)
      ok (h, s4)

abbrev pub read_bad_magic : ℕ → Bytes
read_bad_magic n =
    str "invalid snapshot: bad magic number (got "
    ++ (hexadecimal n ++ (str ", expected " ++ (hexadecimal snapshot_magic ++ str ")")))

abbrev pub read_bad_version : ℕ → Bytes
read_bad_version n =
    str "unsupported snapshot version: "
    ++ (decimal n ++ (str " (expected " ++ (decimal snapshot_version ++ str ")")))

-- `ReadSnapshot`
unfoldable pub read_snapshot : Json → Result Bytes Bytes → Result GoError SnapshotHeader
read_snapshot json opened = do
  file ← or_fail (str "failed to open snapshot file: ") opened
  (h, _) ← read_header json read_bad_magic read_bad_version file
  ok h

abbrev pub restore_bad_magic : ℕ → Bytes
restore_bad_magic n = str "invalid snapshot: bad magic number"

abbrev pub restore_bad_version : ℕ → Bytes
restore_bad_version n = str "unsupported snapshot version: " ++ decimal n

-- `RestoreFromSnapshot` before its loop: what follows the header.
unfoldable pub restore_start : Json → Result Bytes Bytes → Result GoError Bytes
restore_start json opened = do
  file ← or_fail (str "failed to open snapshot file: ") opened
  (_, rest) ← read_header json restore_bad_magic restore_bad_version file
  ok rest
