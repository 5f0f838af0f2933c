-- ===== src/Replay/Log/Recovered.antt =====
-- pkg/replay/recovery.go: which entries `replayWAL` recovers from a log, whole, torn or oversized.
use mathlib.Core.List.{append_assoc, append-nil}
use tieredcache.Base.{
  ℕ, zero, suc, ◌≤◌, ◌≡◌, refl, Bool, List, [], ◌∷◌, ◌++◌, Option, none, some, Bytes, length, take,
  leb, ◌&&◌, not, if◌then◌else◌, arith, All, ap, sym, ◌∙◌, Bool-cases, inl, inr,
}
use tieredcache.Replay.Entry.{WalEntry, Codec, verify_checksum}
use tieredcache.Replay.Frame.{decode_entry}
use tieredcache.Replay.Log.{Found, stop, keep, keep_entry, round, replay_wal}
use tieredcache.Replay.Log.Fuel.{replay_loop-stop}
use tieredcache.Replay.Log.Frames.{frames, IsReadable, keep_all, replay_loop-frames}

-- An entry is wanted if it comes after the checkpoint and its checksum is right.
abbrev pub wanted : ℕ → WalEntry → Bool
wanted checkpoint e = not (leb e.sequence checkpoint) && verify_checksum e

abbrev pub if_wanted : ℕ → Option WalEntry → List WalEntry
if_wanted checkpoint none = []
if_wanted checkpoint (some e) = if wanted checkpoint e then e ∷ [] else []

pub take-short : (d : Bytes) (j : ℕ) → j ≤ length d → take (length d) (take j d) ≡ take j d
take-short [] zero h = refl
take-short [] (suc j) h = absurd (omega arith)
take-short (b ∷ d) zero h = refl
take-short (b ∷ d) (suc j) h = ap (◌∷◌ b) (take-short d j (omega arith))

module _ (codec : Codec) (checkpoint : ℕ) where
  -- The entries of some data that are wanted, in their order.
  abbrev pub accepted : List Bytes → List WalEntry
  accepted [] = []
  accepted (d ∷ ds) = if_wanted checkpoint (decode_entry codec d) ++ accepted ds

  keep-entries :
      (d : Bytes) (r : Found)
      → (keep codec checkpoint d r).entries
        ≡ r.entries ++ if_wanted checkpoint (decode_entry codec d)
  unfolding keep keep_entry
  keep-entries d r = keep_entry-entries (length d) (decode_entry codec d)
    where
      keep_entry-entries :
          (n : ℕ) (o : Option WalEntry)
          → (keep_entry checkpoint n o r).entries ≡ r.entries ++ if_wanted checkpoint o
      keep_entry-entries n none = sym (append-nil r.entries)
      keep_entry-entries n (some e) = elim (Bool-cases (leb e.sequence checkpoint)) [
        | inl old ↦ rw (old, keep_entry) (sym (append-nil r.entries))
        | inr new ↦ elim (Bool-cases (verify_checksum e)) [
          | inl right ↦ rw (new, right, keep_entry) refl
          | inr wrong ↦ rw (new, wrong, keep_entry) (sym (append-nil r.entries))
        ]
      ]

  keep_all-entries :
      (ds : List Bytes) (r : Found)
      → (keep_all codec checkpoint ds r).entries ≡ r.entries ++ accepted ds
  keep_all-entries [] r = sym (append-nil r.entries)
  keep_all-entries (d ∷ ds) r =
      keep_all-entries ds (keep codec checkpoint d r)
      ∙ ap (λ l. l ++ accepted ds) (keep-entries d r)
      ∙ append_assoc r.entries (if_wanted checkpoint (decode_entry codec d)) (accepted ds)

  -- What a scan that stops at `tail` finds after whole records.
  pub scan_stops :
      (ds : List Bytes) (tail : Bytes) (r : Found)
      → All IsReadable ds
      → ((x : Found)
          → (y : Found) × (round codec checkpoint tail x ≡ stop y) × (y.entries ≡ x.entries))
      → (r' : Found) × (replay_wal codec checkpoint (frames ds ++ tail) r ≡ some r')
        × (r'.entries ≡ r.entries ++ accepted ds)
  unfolding replay_wal
  scan_stops ds tail r h ends =
      let x = keep_all codec checkpoint ds r in
      let (y, stopped, same) = ends x in
      (
        y,
        replay_loop-frames codec checkpoint ds (suc (length (frames ds ++ tail))) tail r h
              (omega arith)
            ∙ replay_loop-stop codec checkpoint (length (frames ds ++ tail)) tail x y stopped,
        same ∙ keep_all-entries ds r,
      )

  round-end : (x : Found) → round codec checkpoint [] x ≡ stop x
  unfolding round
  round-end x = refl

  -- The scan of a log of whole records, each with at most the 1 MB of data that `replayWAL` accepts, finds the entries that decode, come after the checkpoint
  -- and have the right checksum, all of them, in their order, and no others: records that are not
  -- accepted do not stop it.
  pub replay_wal-accepted :
      (ds : List Bytes) (r : Found)
      → All IsReadable ds
      → (r' : Found) × (replay_wal codec checkpoint (frames ds ++ []) r ≡ some r')
        × (r'.entries ≡ r.entries ++ accepted ds)
  replay_wal-accepted ds r h = scan_stops ds [] r h (λ x. (x, round-end x, refl))
