-- ===== src/Replay/Frame.antt =====
-- pkg/replay/recovery.go: a record of the log is its size in eight bytes and its data.
use tieredcache.Base.{
  ℕ, ◌+◌, ◌*◌, ◌^◌, ◌<◌, ◌≡◌, refl, [], ◌∷◌, ◌++◌, Option, none, some, Bytes, length, arith,
}
use tieredcache.Replay.Entry.{WalEntry, Codec, be64}

-- `binary.BigEndian.Uint64` of eight bytes.
unfoldable pub be64_value : Bytes → ℕ
be64_value [] = 0
be64_value (b ∷ s) = b * 256 ^ length s + be64_value s

pub be64_value-be64 : (n : ℕ) → n < 2 ^ 64 → be64_value (be64 n) ≡ n
unfolding be64_value be64
be64_value-be64 n h = omega arith

pub length-be64 : (n : ℕ) → length (be64 n) ≡ 8
unfolding be64
length-be64 n = refl

-- The record of some data.
unfoldable pub frame : Bytes → Bytes
frame d = be64 (length d) ++ d

-- `encodeEntry`
unfoldable pub encode_entry : Codec → WalEntry → Option Bytes
encode_entry codec e = elim (codec.marshal e) [ none ↦ none | some d ↦ some (frame d) ]

-- `decodeEntry`
unfoldable pub decode_entry : Codec → Bytes → Option WalEntry
decode_entry codec d = codec.unmarshal d
