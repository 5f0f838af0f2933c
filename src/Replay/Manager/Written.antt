-- ===== src/Replay/Manager/Written.antt =====
-- pkg/replay/recovery.go: what `Write` leaves in the manager, and whether recovery takes the
-- entry back.
use mathlib.Core.List.{append_assoc, append-nil}
use tieredcache.Base.{
  ◌≤◌, All, All-append, ℕ, ◌≡◌, refl, true, false, List, [], ◌∷◌, ◌++◌, none, some, Bytes, leb,
  ◌==◌, if◌then◌else◌, add64, arith, fnv64a, ap, ◌∙◌, sym, ◌<◌,
}
use tieredcache.Replay.Entry.{
  WalEntry, Time, Codec, compute_checksum, verify_checksum, on_the_wire, is_ascii, checksum_input,
}
use tieredcache.Replay.Frame.{frame, encode_entry, decode_entry}
use tieredcache.Replay.Log.{Found, replay_wal}
use tieredcache.Replay.Log.Recovered.{wanted, if_wanted, accepted, replay_wal-accepted}
use tieredcache.Replay.Log.Frames.{IsReadable, frames}
use tieredcache.Replay.Manager.{Manager, stamp, write_encoded, write}

-- The entry as it comes back: stamped, and once through JSON.
abbrev pub back : ℕ → Time → WalEntry → WalEntry
back n now e = on_the_wire (stamp n now e)

-- The bytes hashed for the checksum that is written, and those hashed when it is verified.
abbrev pub hashed : ℕ → Time → WalEntry → Bytes
hashed n now e = checksum_input (record e { sequence = n; timestamp = now })

lt→leb : (a b : ℕ) → b < a → leb a b ≡ false
lt→leb a b h = ground arith

le→leb : (a b : ℕ) → a ≤ b → leb a b ≡ true
le→leb a b h = ground arith

module _ (codec : Codec) (now : Time) (e : WalEntry) (m : Manager) where
  -- The sequence number that `Write` gives.
  abbrev pub next_sequence : ℕ
  next_sequence = add64 m.sequence 1

  -- A manager that is open, and an entry in JSON that recovery reads and that JSON does not change.
  pub record Writable (d : Bytes) : Type 0 where
    pub not_closed : m.closed ≡ false
    pub ascii : is_ascii e.key ≡ true
    pub plain : e.metadata ≡ []
    pub encoded : codec.marshal (stamp next_sequence now e) ≡ some d
    pub readable : IsReadable d

  pub write-wal :
      (d : Bytes)
      → Writable d
      → (write codec now none e m).0 ≡ none
        × ((write codec now none e m).1.disk.wal ≡ m.disk.wal ++ frame d)
        × ((write codec now none e m).1.sequence ≡ next_sequence)
        × ((write codec now none e m).1.disk.checkpoints ≡ m.disk.checkpoints)
        × ((write codec now none e m).1.closed ≡ false)
  unfolding write write_encoded encode_entry
  write-wal d h = simp h.not_closed (ground (arith, h.encoded))

  decode_entry-back :
      (d : Bytes) → Writable d → decode_entry codec d ≡ some (back next_sequence now e)
  unfolding decode_entry stamp
  decode_entry-back d h =
      codec.unmarshal-marshal (stamp next_sequence now e) d h.ascii h.plain h.encoded

pub frames-append : (ds : List Bytes) (d : Bytes) → frames (ds ++ d ∷ []) ≡ frames ds ++ frame d
frames-append [] d = append-nil (frame d)
frames-append (c ∷ ds) d =
    ap (λ s. frame c ++ s) (frames-append ds d) ∙ sym (append_assoc (frame c) (frames ds) (frame d))

pub accepted-append :
    (codec : Codec) (checkpoint : ℕ) (ds : List Bytes) (d : Bytes)
    → accepted codec checkpoint (ds ++ d ∷ [])
      ≡ accepted codec checkpoint ds ++ if_wanted checkpoint (decode_entry codec d)
accepted-append codec checkpoint [] d = append-nil (if_wanted checkpoint (decode_entry codec d))
accepted-append codec checkpoint (c ∷ ds) d =
    ap (λ l. if_wanted checkpoint (decode_entry codec c) ++ l)
      (accepted-append codec checkpoint ds d)
    ∙ sym (
        append_assoc (if_wanted checkpoint (decode_entry codec c)) (accepted codec checkpoint ds)
          (if_wanted checkpoint (decode_entry codec d)))

module _ (codec : Codec) (now : Time) (e : WalEntry) (m : Manager) (ds : List Bytes) (d : Bytes)
    (checkpoint : ℕ) (r : Found) where
  -- After a write the scan of the log finds what it found before, and then the new entry if
  -- that is wanted as it comes back.
  pub write-replay_wal :
      All IsReadable ds
      → m.disk.wal ≡ frames ds
      → Writable codec now e m d
      → (r' : Found) × (replay_wal codec checkpoint (write codec now none e m).1.disk.wal r
          ≡ some r')
        × (r'.entries
            ≡ r.entries
              ++ (accepted codec checkpoint ds
                  ++ if_wanted checkpoint (some (back (next_sequence codec now e m) now e))))
  write-replay_wal all log h =
      let (_, wal, _, _, _) = write-wal codec now e m d h in
      let (r', found, entries) =
        replay_wal-accepted codec checkpoint (ds ++ d ∷ []) r
          (All-append IsReadable ds (d ∷ []) all (h.readable, tt)) in
      let file : (write codec now none e m).1.disk.wal ≡ frames (ds ++ d ∷ []) ++ [] =
        wal ∙ ap (λ s. s ++ frame d) log ∙ sym (frames-append ds d) ∙ sym (append-nil _) in
      (
        r',
        ap (λ s. replay_wal codec checkpoint s r) file ∙ found,
        entries
            ∙ ap (λ l. r.entries ++ l)
                (accepted-append codec checkpoint ds d
                  ∙ ap (λ o. accepted codec checkpoint ds ++ if_wanted checkpoint o)
                      (decode_entry-back codec now e m d h)),
      )

  verify_checksum-back :
      (n : ℕ)
      → verify_checksum (back n now e)
        ≡ (fnv64a (hashed n now e) == fnv64a (hashed n (record now { monotonic = none }) e))
  unfolding verify_checksum compute_checksum stamp
  verify_checksum-back n = refl

  wanted-back :
      (n : ℕ)
      → checkpoint < n
      → wanted checkpoint (back n now e)
        ≡ (fnv64a (hashed n now e) == fnv64a (hashed n (record now { monotonic = none }) e))
  unfolding stamp
  wanted-back n after = rw (lt→leb n checkpoint after) (verify_checksum-back n)

  unwanted : (n : ℕ) → n ≤ checkpoint → if_wanted checkpoint (some (back n now e)) ≡ []
  unfolding stamp
  unwanted n before = rw (le→leb n checkpoint before) refl

  -- An entry that `Write` has put in a log after a checkpoint, by an open manager and with no I/O error:
  -- where the key is in ASCII, there are no metadata, and the data of each record of the log and of the
  -- entry are at most 1 MB, as long as `replayWAL` accepts, it is recovered exactly if the checksum made with the time as `Write` has it, which shows the monotonic reading that
  -- `time.Now` adds, is the one made with the time as JSON gives it back, which has none; the
  -- entries before it are found as before.
  pub write-recovered :
      All IsReadable ds
      → m.disk.wal ≡ frames ds
      → Writable codec now e m d
      → checkpoint < next_sequence codec now e m
      → (r' : Found) × (replay_wal codec checkpoint (write codec now none e m).1.disk.wal r
          ≡ some r')
        × (r'.entries
            ≡ r.entries
              ++ (accepted codec checkpoint ds
                  ++ (if fnv64a (hashed (next_sequence codec now e m) now e)
                        == fnv64a (
                            hashed
                              (next_sequence codec now e m)
                              (record now { monotonic = none })
                              e)
                      then back (next_sequence codec now e m) now e ∷ []
                      else [])))
  write-recovered all log h after =
      let (r', found, entries) = write-replay_wal all log h in
      let n = next_sequence codec now e m in
      (
        r',
        found,
        entries
            ∙ ap
                (λ b.
                  r.entries
                  ++ (accepted codec checkpoint ds ++ (if b then back n now e ∷ [] else [])))
                (wanted-back n after),
      )

  -- An entry that `Write` gives a sequence number up to that of the checkpoint is not recovered:
  -- the scan finds the entries before it and no more.
  pub write-skipped :
      All IsReadable ds
      → m.disk.wal ≡ frames ds
      → Writable codec now e m d
      → next_sequence codec now e m ≤ checkpoint
      → (r' : Found) × (replay_wal codec checkpoint (write codec now none e m).1.disk.wal r
          ≡ some r')
        × (r'.entries ≡ r.entries ++ accepted codec checkpoint ds)
  write-skipped all log h before =
      let (r', found, entries) = write-replay_wal all log h in
      (
        r',
        found,
        entries
            ∙ ap (λ l. r.entries ++ (accepted codec checkpoint ds ++ l))
                (unwanted (next_sequence codec now e m) before)
            ∙ ap (λ l. r.entries ++ l) (append-nil _),
      )
