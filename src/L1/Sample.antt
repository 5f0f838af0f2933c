-- ===== src/L1/Sample.antt =====
-- A database that never fails, and a cache with two of them, for the examples.
use tieredcache.Base.{
  ℕ, refl, false, List, [], ◌∷◌, Bytes, str, lookup, insert, remove, lookup-insert, lookup-remove,
  inr, arith, length, true, none, ok,
}
use tieredcache.Common.Errors.{nil}
use tieredcache.L1.Badger.{Badger, read_of}
use tieredcache.L1.State.{L1Cache}
use tieredcache.L1.Reads.{IsL1}
use tieredcache.L1.Open.{System}

abbrev pub badger_a : Badger
badger_a = record {
  Db = List (Bytes × (Bytes × ℕ));
  read = λ now k db. read_of now (lookup k db);
  set_entry = λ k v x db. (nil, insert k (v, x) db);
  delete_entry = λ k db. (nil, remove k db);
  lsm_size = λ db. length db;
  contents = λ db k. lookup k db;
  read-contents = λ now k db. inr refl;
  set_entry-committed = λ k v x db j good. lookup-insert k j (v, x) db;
  set_entry-failed = λ k v x db j bad. absurd (bad refl);
  delete_entry-committed = λ k db j good. lookup-remove k j db;
  delete_entry-failed = λ k db j bad. absurd (bad refl);
}

abbrev pub l1_a : L1Cache badger_a
l1_a = record {
  shards = ((str "k", (str "old", 0)) ∷ []) ∷ ((str "k", (str "old", 0)) ∷ []) ∷ [];
  shard_count = 2;
  max_capacity = 1000;
  sync_mode = str "periodic";
  wal_enabled = true;
  closed = false;
  reads = 0;
  writes = 0;
  deletes = 0;
  hits = 0;
  misses = 0;
}

pub l1_a-IsL1 : IsL1 l1_a
l1_a-IsL1 = record { sharded = refl; some_shard = omega arith }

-- A system that makes and opens everything.
abbrev pub system_a : System badger_a
system_a = record { make_folder = λ path. none; open_db = λ o. ok []; capacity_bytes = λ x. 1000 }
