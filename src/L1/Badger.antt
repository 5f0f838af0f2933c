-- ===== src/L1/Badger.antt =====
-- The Badger database as pkg/l1/l1_badger.go uses it: what a read may answer, and what its
-- documentation says of transactions. A failed `Update` changes nothing; a committed one is
-- seen by every later read, until the entry's expiry; a read may fail.
use tieredcache.Base.{
  ℕ, ◌≡◌, ◌≢◌, Option, none, some, Bytes, bytes_eq, if◌then◌else◌, ◌==◌, leb, not, ◌&&◌, ◌⊎◌,
}
use tieredcache.Common.Errors.{GoError, nil}

-- `txn.Get` and `ValueCopy`: the value, `ErrKeyNotFound`, or another error.
pub data Read : Type 0 where
  found : Bytes → Read
  absent : Read
  failed : GoError → Read

-- What is read at a second of Unix time, where an expiry of 0 is none.
abbrev pub read_of : ℕ → Option (Bytes × ℕ) → Read
read_of now none = absent
read_of now (some (v, expires)) = if not (expires == 0) && leb expires now then absent else found v

-- A result of nil is a commit.
pub record Badger : Type 1 where
  pub Db : Type 0
  pub read : ℕ → Bytes → Db → Read
  pub set_entry : Bytes → Bytes → ℕ → Db → GoError × Db
  pub delete_entry : Bytes → Db → GoError × Db
  pub lsm_size : Db → ℕ
  pub contents : Db → Bytes → Option (Bytes × ℕ)
  pub read-contents :
      (now : ℕ) (k : Bytes) (db : Db)
      → ((e : GoError) × (e ≢ nil) × (read now k db ≡ failed e))
        ⊎ (read now k db ≡ read_of now (contents db k))
  pub set_entry-committed :
      (k v : Bytes) (x : ℕ) (db : Db) (j : Bytes)
      → (set_entry k v x db).0 ≡ nil
      → contents (set_entry k v x db).1 j ≡ (if bytes_eq k j then some (v, x) else contents db j)
  pub set_entry-failed :
      (k v : Bytes) (x : ℕ) (db : Db) (j : Bytes)
      → (set_entry k v x db).0 ≢ nil
      → contents (set_entry k v x db).1 j ≡ contents db j
  pub delete_entry-committed :
      (k : Bytes) (db : Db) (j : Bytes)
      → (delete_entry k db).0 ≡ nil
      → contents (delete_entry k db).1 j ≡ (if bytes_eq k j then none else contents db j)
  pub delete_entry-failed :
      (k : Bytes) (db : Db) (j : Bytes)
      → (delete_entry k db).0 ≢ nil
      → contents (delete_entry k db).1 j ≡ contents db j
