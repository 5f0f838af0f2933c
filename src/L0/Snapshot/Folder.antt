-- ===== src/L0/Snapshot/Folder.antt =====
-- pkg/l0/snapshot.go: the folder of the snapshots, `cleanOldSnapshots` and `FindLatestSnapshot`.
use tieredcache.Base.{
  ℕ, ◌-◌, Bool, true, false, List, [], ◌∷◌, ◌++◌, Option, none, some, Bytes, str, bytes_eq, ltb,
  ◌==◌, leb, length, drop, if◌then◌else◌, decimal, Result, ok, fail,
}
use tieredcache.Common.Errors.{GoError, text}
use tieredcache.L0.Snapshot.{max_snapshots_to_keep}

-- A file that matches `snapshot_*.snap`; its modification time is `none` where `os.Stat` fails.
pub record SnapFile : Type 0 where
  pub name : Bytes
  pub content : Bytes
  pub mod_time : Option ℕ

-- The matches in the order of `filepath.Glob`: by name.
abbrev pub Folder : Type 0
Folder = List SnapFile

-- The order of strings.
unfoldable pub bytes_ltb : Bytes → Bytes → Bool
bytes_ltb s [] = false
bytes_ltb [] (b ∷ t) = true
bytes_ltb (a ∷ s) (b ∷ t) =
    let rest = bytes_ltb s t in if ltb a b then true else if a == b then rest else false

-- The folder once a file has its name; a file that had it is replaced.
unfoldable pub add_file : SnapFile → Folder → Folder
add_file f [] = f ∷ []
add_file f (g ∷ folder) =
    let rest = add_file f folder in
    if bytes_eq f.name g.name
    then f ∷ folder
    else if bytes_ltb f.name g.name
    then f ∷ (g ∷ folder)
    else g ∷ rest

-- `cleanOldSnapshots`, when the files can be listed and removed: the first ones go.
unfoldable pub clean_old_snapshots : Folder → Folder
clean_old_snapshots folder =
    if leb (length folder) max_snapshots_to_keep
    then folder
    else drop (length folder - max_snapshots_to_keep) folder

-- `snapshot_%d.snap`
abbrev pub snapshot_name : ℕ → Bytes
snapshot_name stamp = str "snapshot_" ++ (decimal stamp ++ str ".snap")

-- The loop of `FindLatestSnapshot`: the latest file so far, and its time. No name is empty, so
-- `latest == ""` before a file is found.
unfoldable pub latest_snapshot : Folder → Option (SnapFile × ℕ) → Option (SnapFile × ℕ)
latest_snapshot [] best = best
latest_snapshot (f ∷ folder) best = latest_snapshot folder (elim f.mod_time [
  | none ↦ best
  | some t ↦ elim best [
    | none ↦ some (f, t)
    | some (g, u) ↦ if ltb u t then some (f, t) else some (g, u)
  ]
])

-- `FindLatestSnapshot`, when the folder can be listed.
unfoldable pub find_latest_snapshot : Folder → Result GoError SnapFile
find_latest_snapshot [] = fail (text (str "no snapshot files found"))
find_latest_snapshot (f ∷ folder) = elim (latest_snapshot (f ∷ folder) none) [
  | none ↦ fail (text (str "no valid snapshot files found"))
  | some (g, _) ↦ ok g
]
