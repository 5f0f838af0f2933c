-- ===== src/Replay/Log/Frames.antt =====
-- pkg/replay/recovery.go: `replayWAL` on what `Write` leaves in the file, whole or cut off.
use tieredcache.Base.{
  ℕ, zero, suc, ◌+◌, ◌≤◌, ◌<◌, ◌≡◌, refl, false, List, [], ◌∷◌, ◌++◌, Bytes, length, ◌==◌, ◌&&◌,
  not, is_empty, arith, All, ap, ◌∙◌, length-append, take-length-append, drop-length-append, le→ltb,
}
use mathlib.Core.List.{append_assoc}
use tieredcache.Common.Entry.{max_wal_entry_size}
use tieredcache.Replay.Entry.{Codec, be64}
use tieredcache.Replay.Frame.{be64_value-be64, frame}
use tieredcache.Replay.Log.Fuel.{replay_loop_enough, replay_loop-next}
use tieredcache.Replay.Log.{Found, next, keep, round, replay_loop}

-- The file after the data of some records.
abbrev pub frames : List Bytes → Bytes
frames [] = []
frames (d ∷ ds) = frame d ++ frames ds

-- Data of a size that `replayWAL` accepts.
abbrev pub IsReadable : Bytes → Type 0
IsReadable d = length d ≤ max_wal_entry_size

module _ (codec : Codec) (checkpoint : ℕ) where
  abbrev pub keep_all : List Bytes → Found → Found
  keep_all [] r = r
  keep_all (d ∷ ds) r = keep_all ds (keep codec checkpoint d r)

  no_early_end : (d : Bytes) → (is_empty d && not (length d == 0)) ≡ false
  no_early_end [] = refl
  no_early_end (b ∷ d) = refl

  -- A whole record is read in one round.
  round-frame :
      (d tail : Bytes) (r : Found)
      → IsReadable d
      → round codec checkpoint (frame d ++ tail) r ≡ next tail (keep codec checkpoint d r)
  unfolding round frame be64
  round-frame d tail r h = rw (
    be64_value-be64 (length d) (omega (arith, h)),
    le→ltb max_wal_entry_size (length d) h,
    take-length-append d tail,
    no_early_end d,
    le→ltb (length d) (length d) (omega arith),
    drop-length-append d tail,
  )

  pub replay_loop-frames :
      (ds : List Bytes) (fuel : ℕ) (tail : Bytes) (r : Found)
      → All IsReadable ds
      → length (frames ds ++ tail) < fuel
      → replay_loop codec checkpoint fuel (frames ds ++ tail) r
        ≡ replay_loop codec checkpoint fuel tail (keep_all ds r)
  replay_loop-frames [] fuel tail r h lt = refl
  replay_loop-frames (d ∷ ds) zero tail r h lt = absurd (omega arith)
  replay_loop-frames (d ∷ ds) (suc fuel) tail r h lt =
      let size : length (frame d ++ (frames ds ++ tail))
          ≡ 8 + (length d + length (frames ds ++ tail)) =
        unfold frame be64 in omega (arith, length-append d (frames ds ++ tail)) in
      let split = append_assoc (frame d) (frames ds) tail in
      let short : length (frames ds ++ tail) < fuel = omega (arith, size, ap length split) in
      rw split (
        replay_loop-next codec checkpoint fuel _ (frames ds ++ tail) r _
          (round-frame d (frames ds ++ tail) r h.0)
        ∙ replay_loop-frames ds fuel tail (keep codec checkpoint d r) h.1 short
        ∙ replay_loop_enough codec checkpoint fuel (suc fuel) tail _
            (omega (arith, length-append (frames ds) tail))
            (omega (arith, length-append (frames ds) tail)))
