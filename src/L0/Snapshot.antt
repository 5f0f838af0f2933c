-- ===== src/L0/Snapshot.antt =====
-- pkg/l0/snapshot.go: snapshot files. A file is a magic number, a version, the length of the header
-- and the header, then for each entry its length and the entry, then a checksum; header and entries
-- are in JSON, which is an interface.
pub mod Write
pub mod Restore
pub mod Loop
pub mod Folder
pub mod Calls
pub mod Never
pub mod Written
pub mod Back
pub mod Outcome
mod Tests
use tieredcache.Base.{
  ℕ, ◌≡◌, ◌≢◌, Bool, true, false, if◌then◌else◌, [], ◌++◌, Option, none, some, Bytes, str, Result,
  ok, fail,
}
use tieredcache.Common.Errors.{GoError, nil, text, wrap}
use tieredcache.Common.Entry.{CacheEntry}
use tieredcache.Replay.Entry.{is_ascii}

-- `SnapshotHeader`; its field `Checksum` is not written and not used. A time is in nanoseconds.
pub record SnapshotHeader : Type 0 where
  pub version : ℕ
  pub created_at : ℕ
  pub entry_count : ℕ
  pub memory_usage : ℕ

abbrev pub snapshot_version : ℕ
snapshot_version = 1

abbrev pub snapshot_magic : ℕ
snapshot_magic = 0x534E4150

abbrev pub max_snapshots_to_keep : ℕ
max_snapshots_to_keep = 3

-- The fields of an entry that a restore uses are the same.
pub record SameEntry (e e' : CacheEntry) : Type 0 where
  pub key : e'.key ≡ e.key
  pub value : e'.value ≡ e.value
  pub ttl : e'.ttl ≡ e.ttl

-- `json.Marshal` and `json.Unmarshal`, with the texts of their errors, and what the code relies on:
-- headers come back as they went out, entries with an ASCII key come back with their key, value
-- and time to live, and no text at all is an error.
pub record Json : Type 0 where
  pub marshal_header : SnapshotHeader → Result Bytes Bytes
  pub unmarshal_header : Bytes → Result Bytes SnapshotHeader
  pub marshal_entry : CacheEntry → Result Bytes Bytes
  pub unmarshal_entry : Bytes → Result Bytes CacheEntry
  pub header_back :
      (h : SnapshotHeader) (d : Bytes) → marshal_header h ≡ ok d → unmarshal_header d ≡ ok h
  pub entry_back :
      (e : CacheEntry) (d : Bytes)
      → is_ascii e.key ≡ true
      → marshal_entry e ≡ ok d
      → (e' : CacheEntry) × (unmarshal_entry d ≡ ok e') × SameEntry e e'
  pub no_text : (err : Bytes) × (unmarshal_entry [] ≡ fail err)

-- A call that may return an error, and the code after it.
infixl 5 ◌>>=◌
abbrev pub ◌>>=◌ {ℓ κ} :
    {A : Type ℓ} {B : Type κ} → Result GoError A → (A → Result GoError B) → Result GoError B
ok a >>= f = f a
fail err >>= f = fail err

-- `fmt.Errorf("…: %w", err)` where the call has failed.
abbrev pub or_fail {ℓ} : {A : Type ℓ} → Bytes → Result Bytes A → Result GoError A
or_fail message (ok a) = ok a
or_fail message (fail err) = fail (wrap message (text err))

-- The error that is returned, if there is one, is not nil.
abbrev pub NotNil {ℓ} : {A : Type ℓ} → Result GoError A → Type 0
NotNil (ok a) = Unit
NotNil (fail err) = err ≢ nil

pub NotNil-bind {ℓ κ} :
    {A : Type ℓ} {B : Type κ} (m : Result GoError A) (f : A → Result GoError B)
    → NotNil m
    → ((a : A) → NotNil (f a))
    → NotNil (m >>= f)
NotNil-bind (ok a) f h k = k a
NotNil-bind (fail err) f h k = h

pub NotNil-or_fail {ℓ} :
    {A : Type ℓ} (message : Bytes) (r : Result Bytes A) → NotNil (or_fail message r)
NotNil-or_fail message (ok a) = tt
NotNil-or_fail message (fail err) = λ e. cc

pub NotNil-if {ℓ} :
    {A : Type ℓ} (b : Bool) (x y : Result GoError A)
    → NotNil x
    → NotNil y
    → NotNil (if b then x else y)
NotNil-if true x y h k = h
NotNil-if false x y h k = k
