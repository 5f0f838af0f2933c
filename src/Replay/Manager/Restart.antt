-- ===== src/Replay/Manager/Restart.antt =====
-- pkg/replay/recovery.go: checkpoints, and a manager that is opened again on the files of another.
use tieredcache.Base.{
  ℕ, ◌≡◌, ◌≤◌, refl, true, false, List, [], ◌∷◌, Option, none, some, Bytes, ltb, arith, inl, inr,
  ◌⊎◌, ap, ◌∙◌, sym, All, ok, if◌then◌else◌, add64,
}
use tieredcache.Replay.Entry.{WalEntry, Time, Codec}
use tieredcache.Replay.Log.{Found, replay_wal}
use tieredcache.Replay.Log.Frames.{IsReadable, frames}
use tieredcache.Replay.Log.Recovered.{accepted}
use tieredcache.Replay.Manager.{
  Manager, Disk, new_recovery_manager, write, find_latest_checkpoint, latest_of, scan, after_scan,
  recover, last_sequence,
}
use tieredcache.Replay.Manager.Written.{Writable, write-skipped, write-wal}

-- A checkpoint of that number is among the files.
abbrev pub HasCheckpoint : ℕ → List (Bytes × Option ℕ) → Type 0
HasCheckpoint n [] = ⊥
HasCheckpoint n ((_, o) ∷ files) = (o ≡ some n) ⊎ HasCheckpoint n files

abbrev pub AllUpTo : ℕ → List (Bytes × Option ℕ) → Type 0
AllUpTo n files = All (λ f. (k : ℕ) → f.1 ≡ some k → k ≤ n) files

latest_of-AllUpTo :
    (files : List (Bytes × Option ℕ)) (l : ℕ)
    → (l ≤ latest_of files l) × AllUpTo (latest_of files l) files
unfolding latest_of
latest_of-AllUpTo [] l = (omega arith, tt)
latest_of-AllUpTo ((_, none) ∷ files) l =
    let (up, all) = latest_of-AllUpTo files l in (up, ((λ k e. cc), all))
latest_of-AllUpTo ((_, some n) ∷ files) l =
    let (up, all) = latest_of-AllUpTo files (if ltb l n then n else l) in
    (ground (arith, up), ((λ k e. ground (arith, up, e)), all))

later_of : (l n : ℕ) → ((if ltb l n then n else l) ≡ l) ⊎ ((if ltb l n then n else l) ≡ n)
later_of l n = ground arith

latest_of-HasCheckpoint :
    (files : List (Bytes × Option ℕ)) (l : ℕ)
    → (latest_of files l ≡ l) ⊎ HasCheckpoint (latest_of files l) files
unfolding latest_of
latest_of-HasCheckpoint [] l = inl refl
latest_of-HasCheckpoint ((_, none) ∷ files) l = elim (latest_of-HasCheckpoint files l) [
  | inl e ↦ inl e
  | inr h ↦ inr (inr h)
]
latest_of-HasCheckpoint ((_, some n) ∷ files) l =
    elim (latest_of-HasCheckpoint files (if ltb l n then n else l)) [
      | inl e ↦ elim (later_of l n) [
        | inl old ↦ inl (e ∙ old)
        | inr new ↦ inr (inl (ap some (sym (e ∙ new))))
      ]
      | inr h ↦ inr (inr h)
    ]

-- The checkpoint that recovery starts from is the largest of those in the directory: no readable
-- one has a larger number, and it is one of them, or 0.
pub find_latest_checkpoint-largest :
    (m : Manager)
    → m.has_checkpoint_path ≡ true
    → AllUpTo (find_latest_checkpoint m) m.disk.checkpoints
      × ((find_latest_checkpoint m ≡ 0)
          ⊎ HasCheckpoint (find_latest_checkpoint m) m.disk.checkpoints)
unfolding find_latest_checkpoint
find_latest_checkpoint-largest m h =
    rw h ((latest_of-AllUpTo m.disk.checkpoints 0).1, latest_of-HasCheckpoint m.disk.checkpoints 0)

new-state :
    (p q : Bytes) (w i : ℕ) (disk : Disk) (m : Manager)
    → new_recovery_manager p q w i disk ≡ ok m
    → (m.sequence ≡ 0) × (m.closed ≡ false) × (m.disk ≡ disk)
unfolding new_recovery_manager
new-state p q w i disk m e = ground arith

recover-state :
    (codec : Codec) (m m1 : Manager) (es : List WalEntry)
    → recover codec m ≡ ok (es, m1)
    → (m1.disk ≡ m.disk)
      × (m1.has_checkpoint_path ≡ m.has_checkpoint_path)
      × (m1.sequence ≡ last_sequence es m.sequence)
unfolding recover after_scan
recover-state codec m m1 es e = ground arith

find_latest_checkpoint-same :
    (m n : Manager)
    → m.has_checkpoint_path ≡ n.has_checkpoint_path
    → m.disk.checkpoints ≡ n.disk.checkpoints
    → find_latest_checkpoint m ≡ find_latest_checkpoint n
unfolding find_latest_checkpoint
find_latest_checkpoint-same m n path files = simp (path, files) refl

-- A manager is opened on the files of another whose log holds nothing after the latest
-- checkpoint, which is at least 1, and recovers nothing. Then its sequence numbers start at 1 again: the
-- first entry that it writes, with no error, a key in ASCII, no metadata and a record of at most 1 MB like
-- all those of the log, gets the number 1 and is skipped by the next recovery, also by a manager that
-- is opened anew.
pub restart-skips :
    (codec : Codec) (p q : Bytes) (w i : ℕ) (disk : Disk) (m m1 m2 : Manager) (ds : List Bytes)
    (now : Time) (e : WalEntry) (d : Bytes)
    → new_recovery_manager p q w i disk ≡ ok m
    → 1 ≤ find_latest_checkpoint m
    → disk.wal ≡ frames ds
    → All IsReadable ds
    → accepted codec (find_latest_checkpoint m) ds ≡ []
    → recover codec m ≡ ok ([], m1)
    → Writable codec now e m1 d
    → m2.disk ≡ (write codec now none e m1).1.disk
    → m2.has_checkpoint_path ≡ m.has_checkpoint_path
    → ((write codec now none e m1).1.sequence ≡ 1)
      × (r : Found) × (scan codec m2 ≡ some r)
      × (r.entries ≡ [])
unfolding scan
restart-skips codec p q w i disk m m1 m2 ds now e d opened late log all nothing recovered h same
      path =
    let (first, _, on_disk) = new-state p q w i disk m opened in
    let (disk1, path1, seq1) = recover-state codec m m1 [] recovered in
    let (_, _, numbered, kept, _) = write-wal codec now e m1 d h in
    let c : find_latest_checkpoint m2 ≡ find_latest_checkpoint m =
      find_latest_checkpoint-same m2 m path
        (ap Disk.checkpoints same ∙ kept ∙ ap Disk.checkpoints disk1) in
    let zero_sequence : m1.sequence ≡ 0 = seq1 ∙ unfold last_sequence in first in
    let start : Found = record {
      entries = [];
      corrupted_size = m2.corrupted_size;
      skipped_entries = m2.skipped_entries;
    } in
    let (r, found, entries) =
      write-skipped codec now e m1 ds d (find_latest_checkpoint m) start all
        (ap Disk.wal (disk1 ∙ on_disk) ∙ log) h (omega arith) in
    (
      numbered ∙ ap (λ n. add64 n 1) zero_sequence,
      r,
      ap (λ n. replay_wal codec n m2.disk.wal start) c
          ∙ ap (λ f. replay_wal codec (find_latest_checkpoint m) f.wal start) same
          ∙ found,
      entries ∙ nothing,
    )
