-- ===== src/Replay/Manager/Sequence.antt =====
-- pkg/replay/recovery.go: the sequence numbers that `Write` gives to the entries of a log.
use mathlib.Core.List.{append_assoc, append-nil}
use tieredcache.Base.{
  ℕ, ◌+◌, ◌^◌, ◌≡◌, ◌≤◌, ◌<◌, refl, Bool, true, false, List, [], ◌∷◌, ◌++◌, Option, none, some,
  Bytes, arith, ap, ◌∙◌, sym, subst, All, length, if◌then◌else◌,
}
use tieredcache.Replay.Entry.{WalEntry, Time, Codec, is_ascii}
use tieredcache.Replay.Frame.{frame, encode_entry, decode_entry}
use tieredcache.Replay.Log.Frames.{frames}
use tieredcache.Replay.Manager.{
  Manager, ReplayError, stamp, write, write_encoded, checkpoint, close, count,
}
use tieredcache.Replay.Manager.Written.{frames-append}

-- The sequence numbers of some records, of those that decode.
abbrev sequence_of : Option WalEntry → List ℕ
sequence_of none = []
sequence_of (some e) = e.sequence ∷ []

abbrev pub sequences : Codec → List Bytes → List ℕ
sequences codec [] = []
sequences codec (d ∷ ds) = sequence_of (decode_entry codec d) ++ sequences codec ds

-- Numbers that rise strictly, above `lo` and up to `hi`.
abbrev pub Rising : ℕ → List ℕ → ℕ → Type 0
Rising lo [] hi = lo ≤ hi
Rising lo (n ∷ ns) hi = (lo < n) × Rising n ns hi

Rising-append :
    (lo : ℕ) (ns : List ℕ) (hi n : ℕ) → Rising lo ns hi → hi < n → Rising lo (ns ++ n ∷ []) n
Rising-append lo [] hi n h lt = (omega arith, omega arith)
Rising-append lo (k ∷ ns) hi n h lt = (h.0, Rising-append k ns hi n h.1 lt)

Rising-le : (lo : ℕ) (ns : List ℕ) (hi n : ℕ) → Rising lo ns hi → hi ≤ n → Rising lo ns n
Rising-le lo [] hi n h lt = omega arith
Rising-le lo (k ∷ ns) hi n h lt = (h.0, Rising-le k ns hi n h.1 lt)

sequences-append :
    (codec : Codec) (ds : List Bytes) (d : Bytes)
    → sequences codec (ds ++ d ∷ []) ≡ sequences codec ds ++ sequence_of (decode_entry codec d)
sequences-append codec [] d = append-nil (sequence_of (decode_entry codec d))
sequences-append codec (c ∷ ds) d =
    ap (λ l. sequence_of (decode_entry codec c) ++ l) (sequences-append codec ds d)
    ∙ sym (
        append_assoc (sequence_of (decode_entry codec c)) (sequences codec ds)
          (sequence_of (decode_entry codec d)))

module _ (codec : Codec) where
  -- The log holds whole records, whose sequence numbers rise from above `lo` up to the manager's.
  abbrev pub IsLog : ℕ → Manager → Type 0
  IsLog lo m =
      (ds : List Bytes) × (m.disk.wal ≡ frames ds) × Rising lo (sequences codec ds) m.sequence

  -- A call of the manager, with no I/O error in a write.
  pub data Call : Type 0 where
    call_write : Time → WalEntry → Call
    call_checkpoint call_close : Call

  abbrev pub after : Call → Manager → Manager
  after (call_write now e) m = (write codec now none e m).1
  after call_checkpoint m = checkpoint m
  after call_close m = close m

  abbrev pub after_all : List Call → Manager → Manager
  after_all [] m = m
  after_all (c ∷ cs) m = after_all cs (after c m)

  -- The writes are of entries that JSON does not change.
  abbrev pub IsPlain : Call → Type 0
  IsPlain (call_write now e) = (is_ascii e.key ≡ true) × (e.metadata ≡ [])
  IsPlain call_checkpoint = Unit
  IsPlain call_close = Unit

  decode_entry-sequence :
      (now : Time) (e : WalEntry) (n : ℕ) (d : Bytes)
      → is_ascii e.key ≡ true
      → e.metadata ≡ []
      → codec.marshal (stamp n now e) ≡ some d
      → sequence_of (decode_entry codec d) ≡ n ∷ []
  unfolding decode_entry stamp
  decode_entry-sequence now e n d ascii plain enc =
      ap sequence_of (codec.unmarshal-marshal (stamp n now e) d ascii plain enc)

  IsLog-if :
      (lo : ℕ) (b : Bool) (x y : Manager) → IsLog lo x → IsLog lo y → IsLog lo (if b then x else y)
  IsLog-if lo true x y hx hy = hx
  IsLog-if lo false x y hx hy = hy

  IsLog-either :
      (lo : ℕ) (b : Bool) (x y : Option ReplayError × Manager)
      → IsLog lo x.1
      → IsLog lo y.1
      → IsLog lo (if b then x else y).1
  IsLog-either lo true x y hx hy = hx
  IsLog-either lo false x y hx hy = hy

  -- What is left of `Write` once the sequence number is counted and the entry is in JSON, or not.
  IsLog-write_encoded :
      (lo hi : ℕ) (o : Option Bytes) (m : Manager) (ds : List Bytes)
      → m.disk.wal ≡ frames ds
      → Rising lo (sequences codec ds) hi
      → hi < m.sequence
      → ((d : Bytes) → o ≡ some d → sequence_of (decode_entry codec d) ≡ m.sequence ∷ [])
      → IsLog lo
          (write_encoded none
            (elim o as (λ _. Option Bytes) [ none ↦ none | some d ↦ some (frame d) ])
            m).1
  unfolding write_encoded
  IsLog-write_encoded lo hi none m ds log rising lt decodes =
      (ds, log, Rising-le lo (sequences codec ds) hi m.sequence rising (omega arith))
  IsLog-write_encoded lo hi (some d) m ds log rising lt decodes =
      let s = sequences-append codec ds d ∙ ap (λ l. sequences codec ds ++ l) (decodes d refl) in
      let up =
        subst (λ l. Rising lo l m.sequence) (sym s)
          (Rising-append lo (sequences codec ds) hi m.sequence rising lt) in
      let file = ap (λ x. x ++ frame d) log ∙ sym (frames-append ds d) in
      IsLog-if lo _ _ _ (ds ++ d ∷ [], file, up) (ds ++ d ∷ [], file, up)

  after-IsLog :
      (lo : ℕ) (c : Call) (m : Manager)
      → IsPlain c
      → m.sequence + 1 < 2 ^ 64
      → IsLog lo m
      → IsLog lo (after c m)
  unfolding write checkpoint close encode_entry
  after-IsLog lo (call_write now e) m plain room (ds, log, rising) =
      IsLog-either lo m.closed _ _ (ds, log, rising)
        (IsLog-write_encoded lo m.sequence (codec.marshal (stamp (count m).sequence now e))
          (count m) ds log rising (omega arith)
          (λ d. decode_entry-sequence now e (count m).sequence d plain.0 plain.1))
  after-IsLog lo call_checkpoint m plain room h = IsLog-if lo m.has_checkpoint_path _ m h h
  after-IsLog lo call_close m plain room h = IsLog-if lo m.closed m _ h h

  write_encoded-sequence :
      (o : Option Bytes) (m : Manager) → (write_encoded none o m).1.sequence ≡ m.sequence
  unfolding write_encoded
  write_encoded-sequence none m = refl
  write_encoded-sequence (some d) m = ground arith

  after-sequence :
      (c : Call) (m : Manager) → m.sequence + 1 < 2 ^ 64 → (after c m).sequence ≤ m.sequence + 1
  unfolding write checkpoint close
  after-sequence (call_write now e) m room = ground (
    arith,
    write_encoded-sequence (encode_entry codec (stamp (count m).sequence now e)) (count m),
  )
  after-sequence call_checkpoint m room = ground arith
  after-sequence call_close m room = ground arith

  -- Whatever calls of `Write`, of the checkpoint and of `Close` are made of a manager, in any order, with
  -- no I/O error, each `Write` with a key in ASCII and no metadata, and so few that the sequence number
  -- stays below 2 ^ 64: if the log holds whole records, and the sequence numbers of those that decode rise
  -- strictly from above a number up to the manager's, then that holds again after the calls. `Recover` is
  -- not among the calls.
  pub after_all-IsLog :
      (lo : ℕ) (cs : List Call) (m : Manager)
      → All IsPlain cs
      → m.sequence + length cs < 2 ^ 64
      → IsLog lo m
      → IsLog lo (after_all cs m)
  after_all-IsLog lo [] m plain room h = h
  after_all-IsLog lo (c ∷ cs) m plain room h =
      after_all-IsLog lo cs (after c m) plain.1 (omega (arith, after-sequence c m (omega arith)))
        (after-IsLog lo c m plain.0 (omega arith) h)
