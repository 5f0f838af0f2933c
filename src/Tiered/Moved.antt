-- ===== src/Tiered/Moved.antt =====
-- pkg/tieredcache/tieredcache.go: `performTiering` loses no entry.
use tieredcache.Base.{
  bytes_eq_refl, subst, ◌/◌, ◌^◌, ℕ, ◌≡◌, ◌≢◌, refl, Bool, true, false, List, [], ◌∷◌, none, some,
  Bytes, Result, ok, fail, bytes_eq, bytes_eq_iff, if◌then◌else◌, Bool-cases, inl, inr, ◌⊎◌, ap,
  sym, ◌∙◌, arith, All, Returns, Returns-bind, Returns-map,
}
use tieredcache.Common.Errors.{GoError, nil, is_nil}
use tieredcache.Common.Entry.{CacheEntry}
use tieredcache.L0.State.{Cache}
use tieredcache.L0.Shard.{IsCache}
use tieredcache.L0.Candidates.{IsKeyed, evict_candidates-IsKeyed}
use tieredcache.L0.Queries.{evict_candidates}
use tieredcache.L0.Ops.Place.{entry_at}
use tieredcache.L0.Ops.Writes.{demote-Demotes}
use tieredcache.L1.Badger.{Badger, Read, found, absent, failed, read_of}
use tieredcache.L1.State.{L1Cache, expires_at}
use tieredcache.L1.Reads.{IsL1, l1_entry, read_result}
use tieredcache.L1.Whole.{set_done, get_done}
use tieredcache.Tiered.Tiering.{
  after_verify, after_copy, tier_entry, tier_entries, tier_candidates, perform_tiering,
}

not_nil : (e : GoError) → e ≢ nil → is_nil e ≡ false
not_nil nil h = absurd (h refl)
not_nil _ h = refl

ok_same : {x y : List CacheEntry} → ◌≡◌ {A = Result GoError (List CacheEntry)} (ok x) (ok y) → x ≡ y
ok_same e = cc

-- No key is that of two entries.
abbrev pub HasNot : Bytes → List CacheEntry → Type 0
HasNot q [] = Unit
HasNot q (e ∷ es) = (e.key ≢ q) × HasNot q es

abbrev pub Distinct : List CacheEntry → Type 0
Distinct [] = Unit
Distinct (e ∷ es) = HasNot e.key es × Distinct es

module _ {badger : Badger} where
  -- Both tiers are well formed and open.
  pub record IsReady (l0 : Cache) (l1 : L1Cache badger) : Type 0 where
    pub valid0 : IsCache l0
    pub open0 : l0.closed ≡ false
    pub valid1 : IsL1 l1
    pub open1 : l1.closed ≡ false

  -- One of the entries has that key, and L1 has its value with the expiry of a copy at that time.
  abbrev pub IsCopied : ℕ → Bytes → List CacheEntry → L1Cache badger → Type 0
  IsCopied now q [] l1 = ⊥
  IsCopied now q (e ∷ es) l1 =
      ((e.key ≡ q) × (l1_entry l1 q ≡ some (e.value, expires_at e.ttl now))) ⊎ IsCopied now q es l1

  -- And a read of L1 at that time finds the value: the copy has not expired.
  abbrev pub IsHeld : ℕ → Bytes → List CacheEntry → L1Cache badger → Type 0
  IsHeld now q [] l1 = ⊥
  IsHeld now q (e ∷ es) l1 =
      ((e.key ≡ q)
        × (l1_entry l1 q ≡ some (e.value, expires_at e.ttl now))
        × (read_of (now / 10 ^ 9) (l1_entry l1 q) ≡ found e.value))
      ⊎ IsHeld now q es l1

  -- What L0 had for a key it still has, or it is gone from L0 and L1 holds it.
  pub record Moves (now : ℕ) (es : List CacheEntry) (l0 l0' : Cache) (l1 l1' : L1Cache badger)
      : Type 0 where
    pub ready : IsReady l0' l1'
    pub kept :
        (q : Bytes)
        → (entry_at l0' q ≡ entry_at l0 q) ⊎ ((entry_at l0' q ≡ none) × IsHeld now q es l1')
    pub others : (q : Bytes) → (l1_entry l1' q ≡ l1_entry l1 q) ⊎ IsCopied now q es l1'

  module _ (l0 : Cache) (l1 : L1Cache badger) (e : CacheEntry) (now : ℕ) (h : IsReady l0 l1)
      (k : IsKeyed e) where
    abbrev P : Cache × L1Cache badger → Type 0
    P (l0', l1') = Moves now (e ∷ []) l0 l0' l1 l1'

    -- L1 after the copy: all but the key is as before, and the key has the copy.
    abbrev Copied : L1Cache badger → Type 0
    Copied a =
        (q : Bytes)
        → l1_entry a q
          ≡ (if bytes_eq e.key q then some (e.value, expires_at e.ttl now) else l1_entry l1 q)

    Copied-others :
        (a : L1Cache badger)
        → Copied a
        → (q : Bytes) → (l1_entry a q ≡ l1_entry l1 q) ⊎ IsCopied now q (e ∷ []) a
    Copied-others a c q = elim (Bool-cases (bytes_eq e.key q)) [
      | inl same ↦ inr (inl ((bytes_eq_iff e.key q).0 same, rw same at (c q)))
      | inr other ↦ inl (rw other at (c q))
    ]

    -- A value is read back only if the copy has not expired.
    abbrev ReadsBack : Result GoError Bytes → Type 0
    ReadsBack (fail err) = Unit
    ReadsBack (ok v) = read_of (now / 10 ^ 9) (some (e.value, expires_at e.ttl now)) ≡ found e.value

    found_or_absent :
        (v : Bytes)
        → found v ≡ read_of (now / 10 ^ 9) (some (e.value, expires_at e.ttl now))
        → read_of (now / 10 ^ 9) (some (e.value, expires_at e.ttl now)) ≡ found e.value
    found_or_absent v h' = ground (arith, h')

    read_result-ReadsBack :
        (a : L1Cache badger) (valid : IsL1 a) (r : Read)
        → ((x : GoError) × (x ≢ nil) × (r ≡ failed x))
          ⊎ (r ≡ read_of (now / 10 ^ 9) (some (e.value, expires_at e.ttl now)))
        → ReadsBack (read_result a e.key valid r)
    read_result-ReadsBack a valid (found v) (inl (x, _, is_failed)) = absurd cc
    read_result-ReadsBack a valid (found v) (inr reads) = found_or_absent v reads
    read_result-ReadsBack a valid absent h' = tt
    read_result-ReadsBack a valid (failed x) h' = tt

    after_verify-Moves :
        (a : L1Cache badger) (r : Result GoError Bytes)
        → IsL1 a
        → a.closed ≡ false
        → Copied a
        → ReadsBack r
        → Returns (after_verify l0 a e r) P
    unfolding after_verify
    after_verify-Moves a (fail err) valid still c back = record {
      ready = record { valid0 = h.valid0; open0 = h.open0; valid1 = valid; open1 = still };
      kept = λ q. inl refl;
      others = Copied-others a c;
    }
    after_verify-Moves a (ok v) valid still c back =
        let (l0', ran, valid', config, gone, rest) = demote-Demotes l0 e.key h.valid0 h.open0 k in
        rw ran (record {
          ready = record {
            valid0 = valid';
            open0 = config.closed ∙ h.open0;
            valid1 = valid;
            open1 = still;
          };
          kept = λ q. elim (Bool-cases (bytes_eq e.key q)) [
            | inl same ↦
                let at_key = (bytes_eq_iff e.key q).0 same in
                inr (
                  ap (entry_at l0') (sym at_key) ∙ gone,
                  inl (
                    at_key,
                    rw same at (c q),
                    ap (read_of (now / 10 ^ 9)) (rw same at (c q)) ∙ back,
                  ),
                )
            | inr other ↦
                inl (rest q (λ p. ground (arith, other, (bytes_eq_iff e.key q).1 (sym p))))
          ];
          others = Copied-others a c;
        })

    after_copy-Moves :
        (a : L1Cache badger)
        → IsL1 a
        → a.closed ≡ false
        → Copied a
        → Returns (after_copy l0 a e now true) P
    unfolding after_copy
    after_copy-Moves a valid still c =
        let (b, db, _, ran, valid', still', reads, same, _, _) =
          get_done a e.key valid still k now in
        let r = badger.read (now / 10 ^ 9) e.key db in
        let holds : l1_entry a e.key ≡ some (e.value, expires_at e.ttl now) =
          rw (bytes_eq_refl e.key) at (c e.key) in
        rw ran (
          after_verify-Moves b (read_result a e.key valid r) valid' still' (λ q. same q ∙ c q)
            (read_result-ReadsBack a valid r (rw holds at reads)))

    tier_entry-Moves : Returns (tier_entry l0 l1 e now) P
    unfolding tier_entry
    tier_entry-Moves =
        let (a, err, ran, valid, still, changes) =
          set_done l1 e.key h.valid1 h.open1 k e.value e.ttl now in
        elim changes [
          | inl (good, c) ↦ rw (ran, good) (after_copy-Moves a valid still c)
          | inr (bad, same) ↦
              rw (ran, not_nil err bad)
                (unfold after_copy in
                  record {
                    ready = record {
                      valid0 = h.valid0;
                      open0 = h.open0;
                      valid1 = valid;
                      open1 = still;
                    };
                    kept = λ q. inl refl;
                    others = λ q. inl (same q);
                  })
        ]

  IsCopied-HasNot :
      (now : ℕ) (q : Bytes) (es : List CacheEntry) (l1 : L1Cache badger)
      → IsCopied now q es l1
      → ¬ (HasNot q es)
  IsCopied-HasNot now q [] l1 c = λ h. c
  IsCopied-HasNot now q (e ∷ es) l1 (inl (at_key, _)) = λ h. h.0 at_key
  IsCopied-HasNot now q (e ∷ es) l1 (inr c) = λ h. IsCopied-HasNot now q es l1 c h.1

  Moves-trans :
      (now : ℕ) (e : CacheEntry) (es : List CacheEntry) (l0 m0 n0 : Cache)
      (l1 m1 n1 : L1Cache badger)
      → HasNot e.key es
      → Moves now (e ∷ []) l0 m0 l1 m1
      → Moves now es m0 n0 m1 n1
      → Moves now (e ∷ es) l0 n0 l1 n1
  Moves-trans now e es l0 m0 n0 l1 m1 n1 only first rest = record {
    ready = rest.ready;
    kept = λ q. elim (rest.kept q) [
      | inr (gone, c) ↦ inr (gone, inr c)
      | inl same ↦ elim (first.kept q) [
        | inl still ↦ inl (same ∙ still)
        | inr (gone, c) ↦ inr (same ∙ gone, held q c)
      ]
    ];
    others = λ q. elim (rest.others q) [
      | inr c ↦ inr (inr c)
      | inl same' ↦ elim (first.others q) [
        | inl same ↦ inl (same' ∙ same)
        | inr c ↦ inr (copied q same' c)
      ]
    ];
  }
    where
      copied :
          (q : Bytes)
          → l1_entry n1 q ≡ l1_entry m1 q
          → IsCopied now q (e ∷ []) m1
          → IsCopied now q (e ∷ es) n1
      copied q same (inl (at_key, there)) = inl (at_key, same ∙ there)
      copied q same (inr c) = absurd c

      held : (q : Bytes) → IsHeld now q (e ∷ []) m1 → IsHeld now q (e ∷ es) n1
      held q (inr c) = absurd c
      held q (inl (at_key, there, reads)) = elim (rest.others q) [
        | inl same ↦ inl (at_key, same ∙ there, ap (read_of (now / 10 ^ 9)) same ∙ reads)
        | inr c ↦ absurd (IsCopied-HasNot now q es n1 c (subst (λ x. HasNot x es) at_key only))
      ]

  -- The whole loop.
  tier_entries-Moves :
      (es : List CacheEntry) (l0 : Cache) (l1 : L1Cache badger) (now : ℕ)
      → IsReady l0 l1
      → All IsKeyed es
      → Distinct es
      → Returns (tier_entries l0 l1 es now) (λ r. Moves now es l0 r.0 l1 r.1)
  unfolding tier_entries
  tier_entries-Moves [] l0 l1 now h k d = record {
    ready = h;
    kept = λ q. inl refl;
    others = λ q. inl refl;
  }
  tier_entries-Moves (e ∷ es) l0 l1 now h k d =
      Returns-bind (tier_entry l0 l1 e now) _ _ _ (tier_entry-Moves l0 l1 e now h k.0) (λ m first.
        Returns-map (tier_entries m.0 m.1 es now) _ _
          (tier_entries-Moves es m.0 m.1 now first.ready k.1 d.1)
          (λ n rest. Moves-trans now e es l0 m.0 n.0 l1 m.1 n.1 d.0 first rest))

  -- A pass of tiering over open and well-formed tiers, where no two candidates have the same key: however
  -- many there are, and whichever copies and checks fail, it ends with both tiers well formed and open, and
  -- no key is lost. L0 has what it had for a key, or it has nothing more and L1 holds, for that key, the
  -- value of one of the candidates with its time to live counted from the pass, not yet expired then. L1
  -- has what it had for a key, or such a copy of a candidate.
  pub perform_tiering-Moves :
      (below : Cache → Bool) (batch_size : ℕ) (l0 : Cache) (l1 : L1Cache badger) (now : ℕ)
      (es : List CacheEntry)
      → IsReady l0 l1
      → evict_candidates l0 batch_size ≡ ok es
      → Distinct es
      → Returns (perform_tiering below batch_size l0 l1 now) (λ r. Moves now es l0 r.0 l1 r.1)
  unfolding perform_tiering tier_candidates
  perform_tiering-Moves below batch_size l0 l1 now es h chosen d =
      let (es', chosen', keyed') = evict_candidates-IsKeyed l0 batch_size h.valid0 h.open0 in
      let same : es' ≡ es = ok_same (sym chosen' ∙ chosen) in
      let keyed : All IsKeyed es = subst (All IsKeyed) same keyed' in
      elim (Bool-cases (below l0)) [
        | inl low ↦ rw low (record { ready = h; kept = λ q. inl refl; others = λ q. inl refl })
        | inr high ↦ rw (high, chosen) (tier_entries-Moves es l0 l1 now h keyed d)
      ]
