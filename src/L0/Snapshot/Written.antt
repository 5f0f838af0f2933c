-- ===== src/L0/Snapshot/Written.antt =====
-- pkg/l0/snapshot.go: what is in a file that `WriteSnapshot` has written.
use tieredcache.Base.{
  ℕ, ◌≡◌, refl, ap, ◌∙◌, sym, List, [], ◌∷◌, ◌++◌, Bytes, length, be32, crc32, Result, arith, ok,
  fail,
}
use mathlib.Core.List.{append_assoc, append-nil}
use tieredcache.Common.Errors.{GoError}
use tieredcache.Common.Entry.{CacheEntry}
use tieredcache.L0.State.{Shard, Cache}
use tieredcache.L0.Snapshot.{Json, ◌>>=◌, or_fail, snapshot_magic, snapshot_version}
use tieredcache.L0.Snapshot.Write.{
  Faults, Step, put, Writing, put_entry, put_entries, put_shards, snapshot_file, header_of,
}

-- The entries in the order in which they are written.
abbrev pub all_entries : List Shard → List (Bytes × CacheEntry)
all_entries [] = []
all_entries (s ∷ shards) = s.entries ++ all_entries shards

-- The data, each with its length before it, and the sum over the data.
abbrev pub frames : List Bytes → Bytes
frames [] = []
frames (d ∷ ds) = be32 (length d) ++ (d ++ frames ds)

abbrev pub sum_of : ℕ → List Bytes → ℕ
sum_of hash [] = hash
sum_of hash (d ∷ ds) = sum_of (crc32 hash d) ds

-- The data are those of the entries.
abbrev pub Marshalled : Json → List (Bytes × CacheEntry) → List Bytes → Type 0
Marshalled json [] [] = Unit
Marshalled json [] (d ∷ ds) = ⊥
Marshalled json (x ∷ es) [] = ⊥
Marshalled json (x ∷ es) (d ∷ ds) = (json.marshal_entry x.1 ≡ ok d) × Marshalled json es ds

bind-ok :
    {A B : Type 0} (m : Result GoError A) (f : A → Result GoError B) (b : B)
    → (m >>= f) ≡ ok b
    → (a : A) × (m ≡ ok a) × (f a ≡ ok b)
bind-ok (ok a) f b e = (a, refl, e)
bind-ok (fail err) f b e = absurd (cc)

or_fail-ok :
    {A : Type 0} (message : Bytes) (r : Result Bytes A) (a : A)
    → or_fail message r ≡ ok a
    → r ≡ ok a
or_fail-ok message (ok a') a e = ground (arith)
or_fail-ok message (fail err) a e = absurd (cc)

put-ok :
    (faults : Faults) (step : Step) (message bytes file file' : Bytes)
    → put faults step message bytes file ≡ ok file'
    → file' ≡ file ++ bytes
unfolding put
put-ok faults step message bytes file file' e = ground arith

frames-append : (ds ds' : List Bytes) → frames (ds ++ ds') ≡ frames ds ++ frames ds'
frames-append [] ds' = refl
frames-append (d ∷ ds) ds' = rw (frames-append ds ds') (simp append_assoc refl)

sum_of-append : (h : ℕ) (ds ds' : List Bytes) → sum_of h (ds ++ ds') ≡ sum_of (sum_of h ds) ds'
sum_of-append h [] ds' = refl
sum_of-append h (d ∷ ds) ds' = sum_of-append (crc32 h d) ds ds'

ok-inj : {A : Type 0} {a b : A} → ◌≡◌ {A = Result GoError A} (ok a) (ok b) → a ≡ b
ok-inj e = cc

-- The part of the file before the entries.
abbrev pub preamble : Bytes → Bytes
preamble h = be32 snapshot_magic ++ (be32 snapshot_version ++ (be32 (length h) ++ h))

-- The calls that add nothing.
add_nothing : (f6 f7 f8 : Bytes) → f7 ≡ f6 ++ [] → f8 ≡ f7 ++ [] → f8 ++ [] ≡ f6
add_nothing f6 f7 f8 p q = append-nil f8 ∙ q ∙ append-nil f7 ∙ p ∙ append-nil f6

-- The pieces of the file, in their order.
assemble :
    (h f0 f1 f2 f3 f4 f5 f6 pieces f7 sum : Bytes)
    → f0 ≡ []
    → f1 ≡ f0 ++ []
    → f2 ≡ f1 ++ be32 snapshot_magic
    → f3 ≡ f2 ++ be32 snapshot_version
    → f4 ≡ f3 ++ be32 (length h)
    → f5 ≡ f4 ++ h
    → f6 ≡ f5 ++ pieces
    → f7 ≡ f6 ++ sum
    → f7 ≡ preamble h ++ (pieces ++ sum)
assemble h f0 f1 f2 f3 f4 f5 f6 pieces f7 sum p0 p1 p2 p3 p4 p5 p6 p7 =
    rw (p7, p6, p5, p4, p3, p2, p1, p0) (simp append_assoc refl)

module _ (json : Json) (faults : Faults) where
  -- What a loop over entries has added.
  pub record Added (es : List (Bytes × CacheEntry)) (w w' : Writing) : Type 0 where
    pub pieces : List Bytes
    pub marshalled : Marshalled json es pieces
    pub file : w'.file ≡ w.file ++ frames pieces
    pub hash : w'.hash ≡ sum_of w.hash pieces

  Added-none : (w w' : Writing) → w' ≡ w → Added [] w w'
  Added-none w w' e = record {
    pieces = [];
    marshalled = tt;
    file = rw (e, append-nil) refl;
    hash = rw e refl;
  }

  put_entry-Added :
      (x : Bytes × CacheEntry) (w w' : Writing)
      → put_entry json faults x w ≡ ok w'
      → (d : Bytes) × (json.marshal_entry x.1 ≡ ok d)
        × (w'.file ≡ w.file ++ (be32 (length d) ++ d))
        × (w'.hash ≡ crc32 w.hash d)
  unfolding put_entry
  put_entry-Added (key, x) w w' e =
      let (d, e1, k1) = bind-ok _ _ w' e in
      let (f1, e2, k2) = bind-ok _ _ w' k1 in
      let (f2, e3, k3) = bind-ok _ _ w' k2 in
      let p1 = put-ok faults _ _ _ w.file f1 e2 in
      let p2 = put-ok faults _ _ d f1 f2 e3 in
      (
        d,
        or_fail-ok _ (json.marshal_entry x) d e1,
        rw (← ok-inj k3) (p2 ∙ ap (λ f. f ++ d) p1 ∙ append_assoc w.file (be32 (length d)) d),
        rw (← ok-inj k3) refl,
      )

  put_entries-Added :
      (es : List (Bytes × CacheEntry)) (w w' : Writing)
      → put_entries json faults es w ≡ ok w'
      → Added es w w'
  unfolding put_entries
  put_entries-Added [] w w' e = Added-none w w' (sym (ok-inj e))
  put_entries-Added (x ∷ es) w w' e =
      let (w1, e1, k) = bind-ok _ _ w' e in
      let (d, m, f, h) = put_entry-Added x w w1 e1 in
      let rest = put_entries-Added es w1 w' k in
      record {
        pieces = d ∷ rest.pieces;
        marshalled = (m, rest.marshalled);
        file = rest.file ∙ rw f (simp append_assoc refl);
        hash = rest.hash ∙ ap (λ x. sum_of x rest.pieces) h;
      }

  Marshalled-append :
      (es es' : List (Bytes × CacheEntry)) (ds ds' : List Bytes)
      → Marshalled json es ds
      → Marshalled json es' ds'
      → Marshalled json (es ++ es') (ds ++ ds')
  Marshalled-append [] es' [] ds' h k = k
  Marshalled-append [] es' (d ∷ ds) ds' h k = absurd h
  Marshalled-append (x ∷ es) es' [] ds' h k = absurd h
  Marshalled-append (x ∷ es) es' (d ∷ ds) ds' h k = (h.0, Marshalled-append es es' ds ds' h.1 k)

  put_shards-Added :
      (shards : List Shard) (w w' : Writing)
      → put_shards json faults shards w ≡ ok w'
      → Added (all_entries shards) w w'
  unfolding put_shards
  put_shards-Added [] w w' e = Added-none w w' (sym (ok-inj e))
  put_shards-Added (s ∷ shards) w w' e =
      let (w1, e1, k) = bind-ok _ _ w' e in
      let first = put_entries-Added s.entries w w1 e1 in
      let rest = put_shards-Added shards w1 w' k in
      record {
        pieces = first.pieces ++ rest.pieces;
        marshalled =
            Marshalled-append s.entries (all_entries shards) first.pieces rest.pieces
              first.marshalled rest.marshalled;
        file =
            rest.file
            ∙ rw (first.file, frames-append first.pieces rest.pieces) (simp append_assoc refl);
        hash = rest.hash ∙ rw (first.hash, sum_of-append w.hash first.pieces rest.pieces) refl;
      }

  -- What a written file is made of.
  pub record Parts (c : Cache) (now : ℕ) (file : Bytes) : Type 0 where
    pub head : Bytes
    pub header : json.marshal_header (header_of c now) ≡ ok head
    pub pieces : List Bytes
    pub marshalled : Marshalled json (all_entries c.shards) pieces
    pub whole : file ≡ preamble head ++ (frames pieces ++ be32 (sum_of 0 pieces))

  pub snapshot_file-Parts :
      (c : Cache) (now : ℕ) (file : Bytes)
      → snapshot_file json faults c now ≡ ok file
      → Parts c now file
  unfolding snapshot_file
  snapshot_file-Parts c now file e =
      let (f0, e0, k0) = bind-ok _ _ file e in
      let (f1, e1, k1) = bind-ok _ _ file k0 in
      let (f2, e2, k2) = bind-ok _ _ file k1 in
      let (f3, e3, k3) = bind-ok _ _ file k2 in
      let (h, e4, k4) = bind-ok _ _ file k3 in
      let (f4, e5, k5) = bind-ok _ _ file k4 in
      let (f5, e6, k6) = bind-ok _ _ file k5 in
      let (w, e7, k7) = bind-ok _ _ file k6 in
      let (f6, e8, k8) = bind-ok _ _ file k7 in
      let (f7, e9, k9) = bind-ok _ _ file k8 in
      let (f8, e10, k10) = bind-ok _ _ file k9 in
      let added = put_shards-Added c.shards _ w e7 in
      let p0 = put-ok faults _ _ _ [] f0 e0 in
      let p1 = put-ok faults _ _ _ f0 f1 e1 in
      let p2 = put-ok faults _ _ _ f1 f2 e2 in
      let p3 = put-ok faults _ _ _ f2 f3 e3 in
      let p4 = put-ok faults _ _ _ f3 f4 e5 in
      let p5 = put-ok faults _ _ h f4 f5 e6 in
      let p6 = put-ok faults _ _ _ w.file f6 e8 in
      let p7 = put-ok faults _ _ _ f6 f7 e9 in
      let p8 = put-ok faults _ _ _ f7 f8 e10 in
      let p9 = put-ok faults _ _ _ f8 file k10 in
      record {
        head = h;
        header = or_fail-ok _ _ h e4;
        pieces = added.pieces;
        marshalled = added.marshalled;
        whole =
            (p9
              ∙ add_nothing f6 f7 f8 p7 p8
              ∙ assemble h f0 f1 f2 f3 f4 f5 w.file (frames added.pieces) f6 (be32 w.hash) p0 p1 p2
                  p3 p4 p5 added.file p6
              ∙ ap (λ x. preamble h ++ (frames added.pieces ++ be32 x)) added.hash);
      }
