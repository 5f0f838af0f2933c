-- ===== src/Replay/Log/Torn.antt =====
-- pkg/replay/recovery.go: `replayWAL` on a log that ends in a record that is cut off or too large.
use tieredcache.Base.{
  ℕ, zero, suc, ◌+◌, ◌-◌, ◌^◌, ◌≤◌, ◌<◌, ◌≡◌, refl, List, [], ◌∷◌, ◌++◌, some, Bytes, length, take,
  ltb, ◌==◌, ◌&&◌, not, is_empty, arith, All, ap, sym, ◌∙◌, le→ltb, lt→ltb, ltb→lt, ltb→le, subst,
  Bool-cases, inl, inr, length-take-le,
}
use tieredcache.Common.Entry.{wal_header_size, max_wal_entry_size}
use tieredcache.Replay.Entry.{Codec, be64}
use tieredcache.Replay.Frame.{be64_value-be64, frame}
use tieredcache.Replay.Log.{Found, stop, corrupt, round, replay_wal}
use tieredcache.Replay.Log.Frames.{frames, IsReadable}
use tieredcache.Replay.Log.Recovered.{accepted, scan_stops, take-short}

length-take-length : (n : ℕ) (s : Bytes) → length (take n s) ≤ length s
length-take-length zero s = omega arith
length-take-length (suc n) [] = omega arith
length-take-length (suc n) (b ∷ s) = omega (arith, length-take-length n s)

take-append_add : (s t : Bytes) (j : ℕ) → take (length s + j) (s ++ t) ≡ s ++ take j t
take-append_add [] t j = ap (λ n. take n t) (omega arith)
take-append_add (b ∷ s) t j =
    let e : suc (length s) + j ≡ suc (length s + j) = omega arith in
    ap (λ n. take n (b ∷ (s ++ t))) e ∙ ap (◌∷◌ b) (take-append_add s t j)

length-take-short : (d : Bytes) (j : ℕ) → j ≤ length d → length (take j d) ≡ j
length-take-short [] zero h = refl
length-take-short [] (suc j) h = absurd (omega arith)
length-take-short (b ∷ d) zero h = refl
length-take-short (b ∷ d) (suc j) h = ap suc (length-take-short d j (omega arith))

module _ (codec : Codec) (checkpoint : ℕ) where
  abbrev pub Stops : Bytes → Type 0
  Stops tail =
      (x : Found) → (y : Found) × (round codec checkpoint tail x ≡ stop y) × (y.entries ≡ x.entries)

  -- A header that is cut off.
  short_header : (tail : Bytes) → length (take 8 tail) < 8 → Stops tail
  unfolding round
  short_header [] h x = (x, refl, refl)
  short_header (b ∷ tail) h x = (x, rw (lt→ltb (length (take 8 (b ∷ tail))) 8 h) refl, refl)

  -- A record whose header is whole and whose data is cut off.
  short_data :
      (d : Bytes) (j : ℕ) → IsReadable d → j < length d → Stops (be64 (length d) ++ take j d)
  unfolding round be64
  short_data d j h lt x = elim (Bool-cases (is_empty (take j d) && not (length d == 0))) [
    | inl none_left ↦ (
      x,
      rw
          (
            be64_value-be64 (length d) (omega (arith, h)),
            le→ltb max_wal_entry_size (length d) h,
            take-short d j (omega arith),
            none_left,
          )
          refl,
      refl,
    )
    | inr some_left ↦ (
      corrupt (length (take j d) + wal_header_size) x,
      rw
          (
            be64_value-be64 (length d) (omega (arith, h)),
            le→ltb max_wal_entry_size (length d) h,
            take-short d j (omega arith),
            some_left,
            lt→ltb (length (take j d)) (length d) (omega (arith, length-take-short d j)),
          )
          refl,
      refl,
    )
  ]

  torn_data :
      (d : Bytes) (j : ℕ) → IsReadable d → 8 + j < length (frame d) → Stops (take (8 + j) (frame d))
  unfolding frame be64
  torn_data d j h lt =
      subst Stops (sym (take-append_add (be64 (length d)) d j)) (short_data d j h (omega arith))

  torn_frame : (d : Bytes) (k : ℕ) → IsReadable d → k < length (frame d) → Stops (take k (frame d))
  torn_frame d k h lt = elim (Bool-cases (ltb k 8)) [
    | inl header ↦ short_header (take k (frame d)) (
        omega (
          arith,
          ltb→lt k 8 header,
          length-take-le k (frame d),
          length-take-length 8 (take k (frame d)),
        ))
    | inr whole ↦
        let e : 8 + (k - 8) ≡ k = omega (arith, ltb→le k 8 whole) in
        subst (λ n. Stops (take n (frame d))) e (torn_data d (k - 8) h (omega arith))
  ]

  -- If the write of the last record was cut off, at any byte of its header or of its data, the
  -- scan ends without error and finds what the whole records before it hold, where each record, the
  -- last one too, has at most the 1 MB of data that `replayWAL` accepts.
  pub replay_wal-torn :
      (ds : List Bytes) (d : Bytes) (k : ℕ) (r : Found)
      → All IsReadable ds
      → IsReadable d
      → k < length (frame d)
      → (r' : Found) × (replay_wal codec checkpoint (frames ds ++ take k (frame d)) r ≡ some r')
        × (r'.entries ≡ r.entries ++ accepted codec checkpoint ds)
  replay_wal-torn ds d k r h hd lt =
      scan_stops codec checkpoint ds (take k (frame d)) r h (torn_frame d k hd lt)

  oversized :
      (d tail : Bytes) → max_wal_entry_size < length d → length d < 2 ^ 64 → Stops (frame d ++ tail)
  unfolding round frame be64
  oversized d tail big word x = (
    corrupt wal_header_size x,
    rw (be64_value-be64 (length d) word, lt→ltb max_wal_entry_size (length d) big) refl,
    refl,
  )

  -- A record of more data than `replayWAL` accepts, which `Write` writes without a check, ends
  -- the scan: what is found is what the records before it hold, whatever bytes follow, also
  -- whole records with entries that were written without error.
  pub replay_wal-oversized :
      (ds : List Bytes) (d tail : Bytes) (r : Found)
      → All IsReadable ds
      → max_wal_entry_size < length d
      → length d < 2 ^ 64
      → (r' : Found) × (replay_wal codec checkpoint (frames ds ++ (frame d ++ tail)) r ≡ some r')
        × (r'.entries ≡ r.entries ++ accepted codec checkpoint ds)
  replay_wal-oversized ds d tail r h big word =
      scan_stops codec checkpoint ds (frame d ++ tail) r h (oversized d tail big word)
