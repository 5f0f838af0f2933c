-- ===== src/L0/Snapshot/Calls.antt =====
-- pkg/l0/snapshot.go and l0_cache.go: the calls that write snapshots, and `Close` and `Restore`.
use tieredcache.Base.{
  ℕ, ◌≡◌, refl, Bool, true, false, inl, inr, Bytes, str, if◌then◌else◌, Bool-cases, Run, done,
  Result, ok, fail, some, sym,
}
use tieredcache.Common.Errors.{GoError, nil}
use tieredcache.L0.State.{Cache}
use tieredcache.L0.Ops.{closed_error}
use tieredcache.L0.Snapshot.{Json}
use tieredcache.L0.Snapshot.Write.{Faults, snapshot_file}
use tieredcache.L0.Snapshot.Loop.{restore_from_snapshot}
use tieredcache.L0.Snapshot.Folder.{Folder, add_file, clean_old_snapshots, snapshot_name}

abbrev pub snapshotting : Bool → Cache → Cache
snapshotting b c = record c { snapshotting = b }

module _ (json : Json) (faults : Faults) (now : ℕ) where
  -- `WriteSnapshot` after the rename or the error. A folder is that of the snapshots: the temporary file has
  -- a name that none of them has, and is renamed or removed.
  abbrev pub committed : Folder → Result GoError Bytes → GoError × Folder
  committed folder (fail err) = (err, folder)
  committed folder (ok file) = (
    nil,
    clean_old_snapshots (
        add_file (record { name = snapshot_name now; content = file; mod_time = some now }) folder),
  )

  -- `WriteSnapshot`, all at one moment.
  unfoldable pub write_snapshot : Cache → Folder → GoError × Cache × Folder
  write_snapshot c folder =
      if c.snapshotting
      then (nil, c, folder)
      else let (err, folder') = committed folder (snapshot_file json faults c now) in
        (err, snapshotting false c, folder')

  -- `snapshot`
  unfoldable pub snapshot : Cache → Folder → GoError × Cache × Folder
  snapshot c folder =
      if c.snapshotting
      then (nil, c, folder)
      else let (err, c', folder') = write_snapshot (snapshotting true c) folder in
        (err, snapshotting false c', folder')

  -- `Close`: the error of the last snapshot is printed only.
  unfoldable pub l0_close : Cache → Folder → GoError × Cache × Folder
  l0_close c folder =
      if c.closed
      then (nil, c, folder)
      else let (_, c', folder') = snapshot (record c { closed = true }) folder in (nil, c', folder')

-- `Restore`
unfoldable pub restore : Json → ℕ → Cache → Result Bytes Bytes → Run (Cache × GoError)
restore json now c opened =
    if c.closed
    then done (c, closed_error (str "restore"))
    else restore_from_snapshot json now c opened

module _ (json : Json) (faults : Faults) (now : ℕ) (folder : Folder) where
  snapshot-silent : (c : Cache) → snapshot json faults now c folder ≡ (nil, c, folder)
  unfolding snapshot write_snapshot
  snapshot-silent c = elim (Bool-cases c.snapshotting) [
    | inl busy ↦ simp busy refl
    | inr idle ↦ simp idle (λ i. (nil, record c { snapshotting = sym idle i }, folder))
  ]

  -- The periodic snapshot and the last one of `Close` write nothing, whatever the cache holds and
  -- whatever the system answers: `snapshot` returns nil and leaves cache and folder as they were, and
  -- `Close` returns nil and leaves the folder, with the cache closed and otherwise as it was.
  pub l0_close-silent :
      (c : Cache)
      → (snapshot json faults now c folder ≡ (nil, c, folder))
        × (l0_close json faults now c folder ≡ (nil, record c { closed = true }, folder))
  unfolding l0_close
  l0_close-silent c = (
    snapshot-silent c,
    elim (Bool-cases c.closed) [
      | inl shut ↦ simp shut (λ i. (nil, record c { closed = shut i }, folder))
      | inr is_open ↦ simp (is_open, snapshot-silent (record c { closed = true })) refl
    ],
  )
