-- ===== src/L0/Spec/Steps.antt =====
-- pkg/l0/l0_cache.go: each of `Get`, `Set`, `Delete` and `Demote` is a step of the specification.
use tieredcache.Base.{
  ℕ, ◌≡◌, ◌≢◌, refl, ap, ◌∙◌, sym, true, false, inl, inr, none, some, Bytes, is_empty, length, ltb,
  ◌||◌, Bool-cases, Option-cases, arith, ℤ, done, fail, Returns, Returns-done, if◌then◌else◌,
  bytes_eq, bytes_eq_iff,
}
use tieredcache.Common.Errors.{GoError, nil, is_nil}
use tieredcache.Common.Entry.{new_cache_entry, is_expired_at}
use tieredcache.L0.State.{Cache}
use tieredcache.L0.Shard.{IsCache}
use tieredcache.L0.Ops.{
  get, set_value, delete, empty_key_error, long_key_error, is_not_found, set_result,
}
use tieredcache.L0.Ops.Place.{entry_at}
use tieredcache.L0.Ops.Written.{SameConfig}
use tieredcache.L0.Ops.Reads.{visible, unexpired, get_result, Reads, get-visible}
use tieredcache.L0.Ops.Writes.{set_value-Stores, delete-Deletes, demote-Demotes}
use tieredcache.L0.Ops.Total.{
  Call, get_call, set_call, delete_call, demote_call, set_value-refused, no_empty_key,
  demote-no_key,
}
use tieredcache.L0.Spec.{
  View, Same, Stored, Removed, Reply, error_reply, bad_key, bad_value, Step, get_shown, get_absent,
  get_refused, set_stored, set_refused, key_deleted, delete_absent, delete_refused, key_demoted,
  demote_absent,
}
use tieredcache.L0.Spec.Answers.{answer}

-- The view of a cache.
abbrev pub view : Cache → View
view c t q = visible c t q

-- After a call of an open, well-formed cache.
pub record Done (c : Cache) (x : Call) (r : Cache × Reply) : Type 0 where
  pub valid : IsCache r.0
  pub config : SameConfig c r.0
  pub step : Step c.max_payload (view c) (view r.0) x r.1

pub same_config : (c : Cache) → SameConfig c c
same_config c = record { max_memory = refl; max_payload = refl; closed = refl }

-- A key that was not shown is not removed.
nothing-Removed :
    (key : Bytes) (a b : View) → Removed key a b → ((t : ℕ) → a t key ≡ none) → Same a b
nothing-Removed key a b r absent t q = elim (Bool-cases (bytes_eq q key)) [
  | inl same ↦ rw ((bytes_eq_iff q key).0 same) (r.gone t ∙ sym (absent t))
  | inr other ↦ r.others q (λ e. ground (arith, bytes_eq_iff q key)) t
]

-- What is stored over the same view.
pub Stored-after :
    {key value : Bytes} {ttl : ℤ} {now : ℕ} {a a' b : View}
    → Same a a'
    → Stored key value ttl now a' b
    → Stored key value ttl now a b
Stored-after same s = record {
  shown = s.shown;
  others = λ q ne. elim (s.others q ne) [
    | inl still ↦ inl (λ t. still t ∙ same t q)
    | inr gone ↦ inr gone
  ];
}

pub set_result-fail : (value : Bytes) (err : GoError) → err ≢ nil → set_result value err ≡ fail err
set_result-fail value err h = ground arith

live_value :
    (key value : Bytes) (ttl : ℤ) (now t : ℕ)
    → unexpired t (some (new_cache_entry key value ttl now))
      ≡ (if is_expired_at ttl now t then none else some value)
unfolding new_cache_entry
live_value key value ttl now t = refl

module _ (c : Cache) (h : IsCache c) (is_open : c.closed ≡ false) where
  -- `Set`, refused or not.
  pub set_value-Stored :
      (key value : Bytes) (ttl : ℤ) (now : ℕ)
      → (is_empty key || bad_value c.max_payload value) ≡ false
      → (c' : Cache) × (set_value c key value ttl now ≡ done (c', nil))
        × IsCache c'
        × SameConfig c c'
        × Stored key value ttl now (view c) (view c')
  set_value-Stored key value ttl now good =
      let (c', ran, h', config, stored, others) =
        set_value-Stores c key h is_open value ttl now (ground arith) (ground arith)
          (ground arith) in
      (
        c',
        ran,
        h',
        config,
        record {
          shown = λ t. ap (unexpired t) stored ∙ live_value key value ttl now t;
          others = λ q ne. elim (others q ne) [
            | inl still ↦ inl (λ t. ap (unexpired t) still)
            | inr gone ↦ inr (λ t. ap (unexpired t) gone)
          ];
        },
      )

  pub set_value-bad :
      (key value : Bytes) (ttl : ℤ) (now : ℕ)
      → (is_empty key || bad_value c.max_payload value) ≡ true
      → (err : GoError) × (set_value c key value ttl now ≡ done (c, err)) × (err ≢ nil)
  set_value-bad key value ttl now bad =
      let (err, ran, e) = set_value-refused c key value ttl now (rw is_open bad) in
      (err, ran, λ p. ground (arith, ap is_nil p))

  -- `Get` with a key that it does not take.
  pub get-bad :
      (key : Bytes) (now : ℕ)
      → bad_key c.max_payload key ≡ true
      → (err : GoError) × (get c key now ≡ done (c, fail err))
        × (err ≢ nil)
        × (is_not_found err ≡ false)
  unfolding get
  get-bad key now bad = elim (Bool-cases (is_empty key)) [
    | inl no_key ↦ (empty_key_error, simp (is_open, no_key) refl, (λ e. cc), refl)
    | inr k ↦ (long_key_error c.max_payload key, simp (is_open, k, long k) refl, (λ e. cc), refl)
  ]
    where
      long : is_empty key ≡ false → ltb c.max_payload (length key) ≡ true
      long k = ground arith

  pub get-good :
      (key : Bytes) (now : ℕ)
      → bad_key c.max_payload key ≡ false
      → (c' : Cache) × (get c key now ≡ done (c', get_result (view c now key))) × Reads c c'
  get-good key now good = get-visible c key now h is_open (ground arith) (ground arith)

  pub answer-get :
      (key : Bytes) (now : ℕ) → Returns (answer (get_call key now) c) (Done c (get_call key now))
  unfolding answer
  answer-get key now = elim (Bool-cases (bad_key c.max_payload key)) [
    | inl bad ↦
        let (err, ran, not_nil, _) = get-bad key now bad in
        rw ran (record {
          valid = h;
          config = same_config c;
          step = get_refused key now err bad not_nil (λ t q. refl);
        })
    | inr good ↦
        let (c', ran, reads) = get-good key now good in
        elim (Option-cases (view c now key)) [
          | inl absent ↦
              rw (ran, absent)
                (record {
                  valid = reads.valid;
                  config = reads.config;
                  step = get_absent key now good absent reads.shows;
                })
          | inr (v, shown) ↦
              rw (ran, shown)
                (record {
                  valid = reads.valid;
                  config = reads.config;
                  step = get_shown key v now good shown reads.shows;
                })
        ]
  ]

  pub answer-set :
      (key value : Bytes) (ttl : ℤ) (now : ℕ)
      → Returns (answer (set_call key value ttl now) c) (Done c (set_call key value ttl now))
  unfolding answer
  answer-set key value ttl now = elim (Bool-cases (is_empty key || bad_value c.max_payload value)) [
    | inl bad ↦
        let (err, ran, not_nil) = set_value-bad key value ttl now bad in
        rw ran (record {
          valid = h;
          config = same_config c;
          step = set_refused key value ttl now err bad not_nil (λ t q. refl);
        })
    | inr good ↦
        let (c', ran, h', config, s) = set_value-Stored key value ttl now good in
        rw ran (record { valid = h'; config = config; step = set_stored key value ttl now good s })
  ]

  pub answer-delete :
      (key : Bytes) → Returns (answer (delete_call key) c) (Done c (delete_call key))
  unfolding answer
  answer-delete key = elim (Bool-cases (is_empty key)) [
    | inl no_key ↦
        Returns-done _ (Done c (delete_call key)) (c, error_reply empty_key_error)
          (unfold delete in simp (is_open, no_key))
          (record {
            valid = h;
            config = same_config c;
            step = delete_refused key empty_key_error no_key (λ e. cc) (λ t q. refl);
          })
    | inr k ↦
        let (c', ran, h', config, gone, others) = delete-Deletes c key h is_open k in
        let removed : Removed key (view c) (view c') = record {
          gone = λ t. ap (unexpired t) gone;
          others = λ q ne t. ap (unexpired t) (others q ne);
        } in
        elim (Option-cases (entry_at c key)) [
          | inr (e, found) ↦
              rw (ran, found)
                (record { valid = h'; config = config; step = key_deleted key k removed })
          | inl absent ↦
              rw (ran, absent)
                (record {
                  valid = h';
                  config = config;
                  step = delete_absent key removed (
                      nothing-Removed key (view c) (view c') removed
                        (λ t. ap (unexpired t) absent));
                })
        ]
  ]

  pub answer-demote :
      (key : Bytes) → Returns (answer (demote_call key) c) (Done c (demote_call key))
  unfolding answer
  answer-demote key = elim (Bool-cases (is_empty key)) [
    | inl no_key ↦
        let absent = no_empty_key c h key no_key in
        rw (demote-no_key c h key is_open no_key) (record {
          valid = h;
          config = same_config c;
          step =
              demote_absent key
                (record { gone = λ t. ap (unexpired t) absent; others = λ q ne t. refl })
                (λ t q. refl);
        })
    | inr k ↦
        let (c', ran, h', config, gone, others) = demote-Demotes c key h is_open k in
        let removed : Removed key (view c) (view c') = record {
          gone = λ t. ap (unexpired t) gone;
          others = λ q ne t. ap (unexpired t) (others q ne);
        } in
        elim (Option-cases (entry_at c key)) [
          | inr (e, found) ↦
              rw (ran, found)
                (record { valid = h'; config = config; step = key_demoted key removed })
          | inl absent ↦
              rw (ran, absent)
                (record {
                  valid = h';
                  config = config;
                  step = demote_absent key removed (
                      nothing-Removed key (view c) (view c') removed
                        (λ t. ap (unexpired t) absent));
                })
        ]
  ]
