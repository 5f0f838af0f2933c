-- ===== src/L0/Snapshot/Loop.antt =====
-- pkg/l0/snapshot.go: `RestoreFromSnapshot`. The restore happens at one moment.
use tieredcache.Base.{
  ℕ, zero, suc, Bytes, str, ◌++◌, length, not, ◌==◌, if◌then◌else◌, crc32, hexadecimal, Run, done,
  no_fuel, ◌>>=◌, Result, ok, fail,
}
use tieredcache.Common.Errors.{GoError, nil, text, wrap}
use tieredcache.Common.Entry.{CacheEntry}
use tieredcache.L0.State.{Cache}
use tieredcache.L0.Ops.{set_value}
use tieredcache.L0.Snapshot.{Json}
use tieredcache.L0.Snapshot.Restore.{
  Number, at_end, cut_short, number, read_number, read_full, restore_start,
}

-- The check of the sum, after the loop.
unfoldable pub check_sum : ℕ → Number → GoError
check_sum hash at_end = wrap (str "failed to read checksum: ") (text (str "EOF"))
check_sum hash cut_short = wrap (str "failed to read checksum: ") (text (str "unexpected EOF"))
check_sum hash (number stored _) =
    if not (stored == hash)
    then text (
        str "snapshot checksum mismatch: stored="
        ++ (hexadecimal stored ++ (str ", computed=" ++ hexadecimal hash)))
    else nil

-- `Set` of a decoded entry; its error is printed only.
unfoldable pub set_entry : ℕ → Cache → CacheEntry → Run Cache
set_entry now c e = do (c', _) ← set_value c e.key e.value e.ttl now; done c'

-- How a round ends: the function returns an error, the loop is left with the bytes that follow, or an
-- entry is to be set, with the bytes that follow and their sum so far.
pub data RestoreRound : Type 0 where
  failed : GoError → RestoreRound
  left : Bytes → RestoreRound
  entry : CacheEntry → Bytes → ℕ → RestoreRound

unfoldable pub decoded : Bytes → ℕ → Result Bytes CacheEntry → RestoreRound
decoded rest hash (fail err) = failed (wrap (str "failed to unmarshal entry: ") (text err))
decoded rest hash (ok e) = entry e rest hash

module _ (json : Json) where
  unfoldable pub sized : ℕ → Result Bytes (Bytes × Bytes) → RestoreRound
  sized hash (fail err) = failed (wrap (str "failed to read entry: ") (text err))
  sized hash (ok (d, rest)) = decoded rest (crc32 hash d) (json.unmarshal_entry d)

  unfoldable pub numbered : Bytes → ℕ → Number → RestoreRound
  numbered s hash at_end = left s
  numbered s hash cut_short =
      failed (wrap (str "failed to read entry length: ") (text (str "unexpected EOF")))
  numbered s hash (number n rest) = sized hash (read_full n rest)

  -- One round on the bytes that are left.
  unfoldable pub restore_round : Bytes → ℕ → RestoreRound
  restore_round s hash = numbered s hash (read_number s)

-- The end of a round; `again` are the rounds that follow.
unfoldable pub after_round :
    (Bytes → ℕ → Cache → Run (Cache × GoError))
    → ℕ
    → ℕ
    → Cache
    → RestoreRound
    → Run (Cache × GoError)
after_round again now hash c (failed err) = done (c, err)
after_round again now hash c (left rest) = done (c, check_sum hash (read_number rest))
after_round again now hash c (entry e rest hash') = do c' ← set_entry now c e; again rest hash' c'

module _ (json : Json) (now : ℕ) where
  -- The loop and the check of the sum. A round that goes on has read four bytes.
  unfoldable pub restore_loop : ℕ → Bytes → ℕ → Cache → Run (Cache × GoError)
  restore_loop zero s hash c = no_fuel
  restore_loop (suc fuel) s hash c =
      after_round (restore_loop fuel) now hash c (restore_round json s hash)

  unfoldable pub started : Cache → Result GoError Bytes → Run (Cache × GoError)
  started c (fail err) = done (c, err)
  started c (ok s) = restore_loop (suc (length s)) s 0 c

  -- `RestoreFromSnapshot`
  unfoldable pub restore_from_snapshot : Cache → Result Bytes Bytes → Run (Cache × GoError)
  restore_from_snapshot c opened =
      if c.closed
      then done (c, text (str "cache is closed"))
      else started c (restore_start json opened)
