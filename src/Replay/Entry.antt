-- ===== src/Replay/Entry.antt =====
-- pkg/replay/recovery.go: entries of the write-ahead log and their checksum.
use tieredcache.Base.{
  ℕ, ◌/◌, ◌%◌, ◌^◌, ◌≡◌, Bool, true, List, [], ◌∷◌, ◌++◌, Option, none, some, Bytes, str, ltb, ◌==◌,
  ◌&&◌, decimal, fnv64a,
}

pub data Operation : Type 0 where
  op_set op_delete op_promote op_demote : Operation

abbrev pub operation_code : Operation → ℕ
operation_code op_set = 0
operation_code op_delete = 1
operation_code op_promote = 2
operation_code op_demote = 3

-- A `time.Time`: the text of its date, time and zone, and the monotonic reading that
-- `time.Now` adds, which is not negative here.
pub record Time : Type 0 where
  pub wall : Bytes
  pub monotonic : Option ℕ

-- `Time.String`: the documentation says that a monotonic reading shows as a last field `m=±…`.
abbrev pub time_string : Time → Bytes
time_string t = elim t.monotonic [ none ↦ t.wall | some m ↦ t.wall ++ (str " m=+" ++ decimal m) ]

pub record WalEntry : Type 0 where
  pub sequence : ℕ
  pub timestamp : Time
  pub operation : Operation
  pub key : Bytes
  pub value : Bytes
  pub metadata : List (Bytes × Bytes)
  pub tier : ℕ
  pub checksum : ℕ

-- `binary.BigEndian.PutUint64`, and `binary.Write` of a uint64 or an int64 that is not negative.
unfoldable pub be64 : ℕ → Bytes
be64 n =
    n / 2 ^ 56 % 256
    ∷ n / 2 ^ 48 % 256
    ∷ n / 2 ^ 40 % 256
    ∷ n / 2 ^ 32 % 256
    ∷ n / 2 ^ 24 % 256
    ∷ n / 2 ^ 16 % 256
    ∷ n / 2 ^ 8 % 256
    ∷ n % 256
    ∷ []

-- The bytes that `computeChecksum` hashes.
abbrev pub checksum_input : WalEntry → Bytes
checksum_input e =
    be64 e.sequence
    ++ (e.key ++ (e.value ++ (time_string e.timestamp ++ be64 (operation_code e.operation))))

-- `computeChecksum`
unfoldable pub compute_checksum : WalEntry → ℕ
compute_checksum e = fnv64a (checksum_input e)

-- `verifyChecksum`
unfoldable pub verify_checksum : WalEntry → Bool
verify_checksum e = e.checksum == compute_checksum e

-- What is left of an entry in JSON: `Time.MarshalJSON` writes no monotonic reading.
abbrev pub on_the_wire : WalEntry → WalEntry
on_the_wire e = record e { timestamp = record { wall = e.timestamp.wall; monotonic = none } }

-- A key that JSON does not change: one in ASCII (invalid UTF-8 would be replaced).
abbrev pub is_ascii : Bytes → Bool
is_ascii [] = true
is_ascii (b ∷ s) = ltb b 128 && is_ascii s

-- `json.Marshal` and `json.Unmarshal` on entries, and what the program relies on: an entry with an
-- ASCII key and no metadata comes back as it went out, but for the monotonic reading.
pub record Codec : Type 0 where
  pub marshal : WalEntry → Option Bytes
  pub unmarshal : Bytes → Option WalEntry
  pub unmarshal-marshal :
      (e : WalEntry) (d : Bytes)
      → is_ascii e.key ≡ true
      → e.metadata ≡ []
      → marshal e ≡ some d
      → unmarshal d ≡ some (on_the_wire e)
