-- ===== src/L0/Snapshot/Outcome.antt =====
-- pkg/l0/snapshot.go: what `WriteSnapshot` does to the folder, and to the cache.
use tieredcache.Base.{
  ℕ, ◌-◌, ◌≡◌, ◌≢◌, refl, ap, ◌∙◌, sym, true, false, inl, inr, List, [], ◌∷◌, ◌++◌, Option, none,
  some, Bytes, bytes_eq, length, drop, leb, All, arith, Bool-cases, Result, ok, fail,
}
use tieredcache.Common.Errors.{GoError, nil, text, wrap}
use tieredcache.Common.Entry.{CacheEntry}
use tieredcache.L0.State.{Shard, Cache}
use tieredcache.L0.Snapshot.{Json, NotNil, NotNil-bind, NotNil-or_fail}
use tieredcache.L0.Snapshot.Write.{
  Faults, Step, put, Writing, put_entry, put_entries, put_shards, snapshot_file,
}
use tieredcache.L0.Snapshot.Folder.{
  SnapFile, Folder, bytes_ltb, add_file, clean_old_snapshots, snapshot_name,
}
use tieredcache.L0.Snapshot.Calls.{write_snapshot, committed}

-- The last three files.
abbrev pub last_three : Folder → Folder
last_three folder = drop (length folder - 3) folder

-- The name comes after those of the folder.
abbrev pub IsLast : Bytes → Folder → Type 0
IsLast name =
    All (λ (g : SnapFile). (bytes_eq name g.name ≡ false) × (bytes_ltb name g.name ≡ false))

add_file-IsLast :
    (f : SnapFile) (folder : Folder) → IsLast f.name folder → add_file f folder ≡ folder ++ f ∷ []
unfolding add_file
add_file-IsLast f [] h = refl
add_file-IsLast f (g ∷ folder) h = rw (h.0.0, h.0.1) (ap (◌∷◌ g) (add_file-IsLast f folder h.1))

clean_old_snapshots-last_three : (folder : Folder) → clean_old_snapshots folder ≡ last_three folder
unfolding clean_old_snapshots
clean_old_snapshots-last_three folder = elim (Bool-cases (leb (length folder) 3)) [
  | inl few ↦ rw (few, at_zero few) refl
  | inr many ↦ rw many refl
]
  where
    at_zero : leb (length folder) 3 ≡ true → length folder - 3 ≡ 0
    at_zero few = ground arith

put-NotNil :
    (faults : Faults) (step : Step) (message bytes file : Bytes)
    → NotNil (put faults step message bytes file)
unfolding put
put-NotNil faults step message bytes file = by_fault (faults step)
  where
    by_fault :
        (f : Option Bytes)
        → NotNil (elim f [ none ↦ ok (file ++ bytes) | some err ↦ fail (wrap message (text err)) ])
    by_fault none = tt
    by_fault (some err) = λ e. cc

module _ (json : Json) (faults : Faults) where
  put_entry-NotNil : (x : Bytes × CacheEntry) (w : Writing) → NotNil (put_entry json faults x w)
  unfolding put_entry
  put_entry-NotNil (key, e) w = NotNil-bind _ _ (NotNil-or_fail _ (json.marshal_entry e)) (λ d.
      NotNil-bind _ _ (put-NotNil faults _ _ _ _)
        (λ f. NotNil-bind _ _ (put-NotNil faults _ _ _ _) (λ f'. tt)))

  put_entries-NotNil :
      (es : List (Bytes × CacheEntry)) (w : Writing) → NotNil (put_entries json faults es w)
  unfolding put_entries
  put_entries-NotNil [] w = tt
  put_entries-NotNil (x ∷ es) w =
      NotNil-bind _ _ (put_entry-NotNil x w) (λ w'. put_entries-NotNil es w')

  put_shards-NotNil : (shards : List Shard) (w : Writing) → NotNil (put_shards json faults shards w)
  unfolding put_shards
  put_shards-NotNil [] w = tt
  put_shards-NotNil (s ∷ shards) w =
      NotNil-bind _ _ (put_entries-NotNil s.entries w) (λ w'. put_shards-NotNil shards w')

  snapshot_file-NotNil : (c : Cache) (now : ℕ) → NotNil (snapshot_file json faults c now)
  unfolding snapshot_file
  snapshot_file-NotNil c now = NotNil-bind _ _ (put-NotNil faults _ _ _ _) (λ f0.
      NotNil-bind _ _ (put-NotNil faults _ _ _ _) (λ f1.
        NotNil-bind _ _ (put-NotNil faults _ _ _ _) (λ f2.
          NotNil-bind _ _ (put-NotNil faults _ _ _ _) (λ f3.
            NotNil-bind _ _ (NotNil-or_fail _ (json.marshal_header _)) (λ h.
              NotNil-bind _ _ (put-NotNil faults _ _ _ _) (λ f4.
                NotNil-bind _ _ (put-NotNil faults _ _ _ _) (λ f5.
                  NotNil-bind _ _ (put_shards-NotNil c.shards _) (λ w.
                    NotNil-bind _ _ (put-NotNil faults _ _ _ _) (λ f6.
                      NotNil-bind _ _ (put-NotNil faults _ _ _ _) (λ f7.
                        NotNil-bind _ _ (put-NotNil faults _ _ _ _)
                          (λ f8. put-NotNil faults _ _ _ _)))))))))))

  abbrev pub Outcome : Cache → ℕ → Folder → Result GoError Bytes → GoError × Cache × Folder → Type 0
  Outcome c now folder (fail err) r = (r ≡ (err, c, folder)) × (err ≢ nil)
  Outcome c now folder (ok file) r =
      let new : SnapFile = record {
        name = snapshot_name now;
        content = file;
        mod_time = some now;
      } in
      r ≡ (nil, c, last_three (folder ++ new ∷ []))

  committed-Outcome :
      (c : Cache) (now : ℕ) (folder : Folder) (r : Result GoError Bytes)
      → c.snapshotting ≡ false
      → IsLast (snapshot_name now) folder
      → NotNil r
      → let (err, folder') = committed json faults now folder r in
        Outcome c now folder r (err, record c { snapshotting = false }, folder')
  committed-Outcome c now folder (fail err) idle newest bad =
      (λ i. (err, record c { snapshotting = sym idle i }, folder), bad)
  committed-Outcome c now folder (ok file) idle newest bad =
      let new : SnapFile = record {
        name = snapshot_name now;
        content = file;
        mod_time = some now;
      } in
      λ i. (
        nil,
        record c { snapshotting = sym idle i },
        (ap clean_old_snapshots (add_file-IsLast new folder newest)
              ∙ clean_old_snapshots-last_three (folder ++ new ∷ []))
            i,
      )

  -- `WriteSnapshot`, where no other snapshot is being written and the name of the new file comes after
  -- those in the folder: either a call of the system or of the JSON library fails, and it returns an error
  -- that is not nil and leaves the folder as it was; or it returns nil and leaves the last three of the
  -- old files and the new one, which holds the whole file. The cache is as it was, not locked for the
  -- next snapshot.
  pub write_snapshot-Outcome :
      (c : Cache) (now : ℕ) (folder : Folder)
      → c.snapshotting ≡ false
      → IsLast (snapshot_name now) folder
      → Outcome c now folder
          (snapshot_file json faults c now)
          (write_snapshot json faults now c folder)
  unfolding write_snapshot
  write_snapshot-Outcome c now folder idle newest = simp idle (
      committed-Outcome c now folder (snapshot_file json faults c now) idle newest
        (snapshot_file-NotNil c now))
