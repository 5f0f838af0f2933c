-- ===== src/L1/Tests.antt =====
-- pkg/l1/l1_badger.go: the theorems at a concrete cache.
use tieredcache.Base.{◌≡◌, refl, str, done, some, arith, pos}
use tieredcache.L1.State.{L1Cache, l1_set, expires_at, disk_usage}
use tieredcache.L1.Reads.{IsL1, Changes, IsShardDb, l1_set-Changes}
use tieredcache.L1.Sample.{badger_a, l1_a, l1_a-IsL1}

l1_set-Changes_example :
    (c' : L1Cache badger_a) × (db : badger_a.Db) × IsShardDb l1_a (str "k") l1_a-IsL1 db
    × (l1_set l1_a (str "k") (str "v") (pos 5000000000) 9000000000
        ≡ done (
          c',
          (badger_a.set_entry (str "k") (str "v") (expires_at (pos 5000000000) 9000000000) db).0,
        ))
    × IsL1 c'
    × Changes l1_a
        (str "k")
        l1_a-IsL1
        (some (str "v", expires_at (pos 5000000000) 9000000000))
        c'
        (badger_a.set_entry (str "k") (str "v") (expires_at (pos 5000000000) 9000000000) db).0
l1_set-Changes_example =
    l1_set-Changes l1_a (str "k") l1_a-IsL1 (str "v") (pos 5000000000) 9000000000 refl refl refl
      (unfold disk_usage in omega arith)
