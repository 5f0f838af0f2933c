-- ===== src/Replay/Sample.antt =====
-- A codec and a manager for the examples.
use tieredcache.Base.{
  ℕ, ◌≡◌, refl, true, false, [], ◌∷◌, ◌++◌, Option, none, some, Bytes, str, length, take, drop, ap,
  ◌∙◌, sym, take-length-append, drop-length-append, ◌==◌, if◌then◌else◌,
}
use tieredcache.Replay.Entry.{
  Operation, op_set, op_delete, op_promote, op_demote, operation_code, Time, WalEntry, Codec,
  on_the_wire,
}
use tieredcache.Replay.Manager.{Disk, Manager}

abbrev pub operation_of : ℕ → Operation
operation_of n =
    if n == 0
    then op_set
    else if n == 1
    then op_delete
    else if n == 2
    then op_promote
    else op_demote

pub operation_of-code : (o : Operation) → operation_of (operation_code o) ≡ o
operation_of-code op_set = refl
operation_of-code op_delete = refl
operation_of-code op_promote = refl
operation_of-code op_demote = refl

-- A codec that writes the fields one after the other, with the lengths of two of them.
abbrev pub encode : WalEntry → Bytes
encode e =
    e.sequence
    ∷ operation_code e.operation
    ∷ e.tier
    ∷ e.checksum
    ∷ length e.timestamp.wall
    ∷ length e.key
    ∷ (e.timestamp.wall ++ (e.key ++ e.value))

abbrev pub decode : Bytes → Option WalEntry
decode (n ∷ o ∷ t ∷ c ∷ w ∷ k ∷ s) = some (record {
  sequence = n;
  timestamp = record { wall = take w s; monotonic = none };
  operation = operation_of o;
  key = take k (drop w s);
  value = drop k (drop w s);
  metadata = [];
  tier = t;
  checksum = c;
})
decode _ = none

pub decode-encode : (e : WalEntry) → e.metadata ≡ [] → decode (encode e) ≡ some (on_the_wire e)
decode-encode e plain =
    simp
      (
        take-length-append e.timestamp.wall (e.key ++ e.value),
        drop-length-append e.timestamp.wall (e.key ++ e.value),
        take-length-append e.key e.value,
        drop-length-append e.key e.value,
        operation_of-code e.operation,
        plain,
      )
      refl

pub some_of : {A : Type 0} (a b : A) → some a ≡ some b → a ≡ b
some_of a b e = cc

abbrev pub codec_a : Codec
codec_a = record {
  marshal = λ e. some (encode e);
  unmarshal = decode;
  unmarshal-marshal =
      λ e d ascii plain enc. ap decode (sym (some_of (encode e) d enc)) ∙ decode-encode e plain;
}

-- A moment with a monotonic reading, as `time.Now` gives it, and an entry before `Write` fills it in.
abbrev pub moment : Time
moment = record { wall = str "2026-01-02 03:04:05 +0000 UTC"; monotonic = some 17 }

abbrev pub disk_of : Bytes → Disk
disk_of wal = record {
  wal = wal;
  checkpoints = (str "checkpoint_7.json", some 7) ∷ (str "x", none) ∷ [];
}

-- An open manager on such files.
abbrev pub manager_of : Bytes → ℕ → Manager
manager_of wal n = record {
  has_checkpoint_path = true;
  max_workers = 2;
  checkpoint_interval = 100;
  sequence = n;
  closed = false;
  skipped_entries = 0;
  corrupted_size = 0;
  last_checkpoint = 0;
  pending = 0;
  disk = disk_of wal;
}
