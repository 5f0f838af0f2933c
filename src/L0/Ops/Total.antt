-- ===== src/L0/Ops/Total.antt =====
-- pkg/l0/l0_cache.go: every call, with any arguments, on a well-formed cache.
use tieredcache.Base.{
  str, ℕ, ◌||◌, lookup, Returns-done, Option-cases, ◌≡◌, refl, Bool, true, false, List, [], ◌∷◌,
  none, Bytes, length, arith, ltb, ltb→le, Run, done, ◌>>=◌, inl, inr, is_empty, ℤ, Result, ok,
  fail, Returns, Returns-bind, Bool-cases, ◌∙◌, All-lookup, sym,
}
use tieredcache.Common.Errors.{GoError, is_nil, code, not_found}
use tieredcache.L0.State.{Cache}
use tieredcache.L0.Shard.{IsStored, IsCache}
use tieredcache.L0.Ops.{
  closed_error, empty_key_error, empty_value_error, long_value_error, long_key_error, get,
  set_value, delete, get_or_set, got_or_set, demote, demote_found, is_not_found,
}
use tieredcache.L0.Ops.Place.{entry_at, locate}
use tieredcache.L0.Ops.Writes.{set_value-Stores, delete-Deletes, demote-Demotes}
use tieredcache.L0.Ops.Reads.{get-visible}

-- What `Set` refuses.
abbrev pub refused : Cache → Bytes → Bytes → Bool
refused c key value =
    c.closed || (is_empty key || (is_empty value || ltb c.max_payload (length value)))

-- `Set` refuses a call on a closed cache, an empty key, an empty value and a value beyond the
-- payload limit: with an error that is not nil, and with the cache as it was.
pub set_value-refused :
    (c : Cache) (key value : Bytes) (ttl : ℤ) (now : ℕ)
    → refused c key value ≡ true
    → (err : GoError) × (set_value c key value ttl now ≡ done (c, err)) × (is_nil err ≡ false)
unfolding set_value
set_value-refused c key value ttl now r = elim (Bool-cases c.closed) [
  | inl shut ↦ (closed_error (str "set"), simp shut, refl)
  | inr is_open ↦ elim (Bool-cases (is_empty key)) [
    | inl no_key ↦ (empty_key_error, simp (is_open, no_key), refl)
    | inr k ↦ elim (Bool-cases (is_empty value)) [
      | inl no_value ↦ (empty_value_error value, simp (is_open, k, no_value), refl)
      | inr v ↦ elim (Bool-cases (ltb c.max_payload (length value))) [
        | inl long ↦ (long_value_error c.max_payload value, simp (is_open, k, v, long), refl)
        | inr fits ↦ absurd (ground arith)
      ]
    ]
  ]
]

module _ (c : Cache) (h : IsCache c) where
  pub set_value-IsCache :
      (key value : Bytes) (ttl : ℤ) (now : ℕ)
      → Returns (set_value c key value ttl now) (λ r. IsCache r.0)
  set_value-IsCache key value ttl now = elim (Bool-cases (refused c key value)) [
    | inl bad ↦ let (err, e, _) = set_value-refused c key value ttl now bad in rw e h
    | inr good ↦
        let (c', e, h', _, _, _) =
          set_value-Stores c key h (ground arith) value ttl now (ground arith) (ground arith)
            (ground arith) in
        rw e h'
  ]

  get-IsCache : (key : Bytes) (now : ℕ) → Returns (get c key now) (λ r. IsCache r.0)
  unfolding get
  get-IsCache key now = elim (Bool-cases c.closed) [
    | inl shut ↦ Returns-done _ _ _ (refuses shut) h
    | inr is_open ↦ elim (Bool-cases (is_empty key)) [
      | inl no_key ↦ Returns-done _ _ _ (no_name is_open no_key) h
      | inr k ↦ elim (Bool-cases (ltb c.max_payload (length key))) [
        | inl long ↦ Returns-done _ _ _ (too_long is_open k long) h
        | inr fits ↦
            let (c', e, reads) =
              get-visible c key now h is_open k (ltb→le c.max_payload (length key) fits) in
            rw e reads.valid
      ]
    ]
  ]
    where
      refuses : c.closed ≡ true → get c key now ≡ done (c, fail (closed_error (str "get")))
      refuses shut = simp shut

      no_name :
          c.closed ≡ false → is_empty key ≡ true → get c key now ≡ done (c, fail empty_key_error)
      no_name o k = simp (o, k)

      too_long :
          c.closed ≡ false
          → is_empty key ≡ false
          → ltb c.max_payload (length key) ≡ true
          → get c key now ≡ done (c, fail (long_key_error c.max_payload key))
      too_long o k l = simp (o, k, l)

  delete-IsCache : (key : Bytes) → Returns (delete c key) (λ r. IsCache r.0)
  delete-IsCache key = elim (Bool-cases c.closed) [
    | inl shut ↦ Returns-done _ _ _ (refuses shut) h
    | inr is_open ↦ elim (Bool-cases (is_empty key)) [
      | inl no_key ↦ Returns-done _ _ _ (no_name is_open no_key) h
      | inr k ↦ let (c', e, h', _, _, _) = delete-Deletes c key h is_open k in rw e h'
    ]
  ]
    where
      refuses : c.closed ≡ true → delete c key ≡ done (c, closed_error (str "delete"))
      refuses shut = unfold delete in simp shut

      no_name : c.closed ≡ false → is_empty key ≡ true → delete c key ≡ done (c, empty_key_error)
      no_name o k = unfold delete in simp (o, k)

  -- The map holds no entry under the empty key.
  pub no_empty_key : (key : Bytes) → is_empty key ≡ true → entry_at c key ≡ none
  no_empty_key key e =
      let at = locate c key h in
      elim (Option-cases (lookup key at.shard.entries)) [
        | inl absent ↦ at.reads ∙ absent
        | inr (x, found) ↦
            absurd
              (ground (arith, All-lookup IsStored key at.shard.entries x at.valid.1.stored found))
      ]

  -- `Demote` with the empty key
  pub demote-no_key :
      (key : Bytes)
      → c.closed ≡ false
      → is_empty key ≡ true
      → demote c key ≡ done (c, code not_found)
  unfolding demote demote_found
  demote-no_key key o k =
      let at = locate c key h in
      let absent : lookup key at.shard.entries ≡ none = sym at.reads ∙ no_empty_key key k in
      simp (o, at.found, absent)

  demote-IsCache : (key : Bytes) → Returns (demote c key) (λ r. IsCache r.0)
  demote-IsCache key = elim (Bool-cases c.closed) [
    | inl shut ↦ Returns-done _ _ _ (refuses shut) h
    | inr is_open ↦ elim (Bool-cases (is_empty key)) [
      | inl no_key ↦ Returns-done _ _ _ (demote-no_key key is_open no_key) h
      | inr k ↦ let (c', e, h', _, _, _) = demote-Demotes c key h is_open k in rw e h'
    ]
  ]
    where
      refuses : c.closed ≡ true → demote c key ≡ done (c, closed_error (str "demote"))
      refuses shut = unfold demote in simp shut

pub get_or_set-IsCache :
    (c : Cache)
    → IsCache c
    → (key value : Bytes) (ttl : ℤ) (now : ℕ)
    → Returns (get_or_set c key value ttl now) (λ r. IsCache r.0)
unfolding get_or_set
get_or_set-IsCache c h key value ttl now =
    Returns-bind (get c key now) _ (λ r. IsCache r.0) (λ r. IsCache r.0) (get-IsCache c h key now)
      (λ (c', got) h'. rest c' got h')
  where
    rest :
        (c' : Cache) (got : Result GoError Bytes)
        → IsCache c'
        → Returns (got_or_set c' key value ttl now got) (λ r. IsCache r.0)
    rest c' (ok v) h' = h'
    rest c' (fail err) h' = elim (Bool-cases (is_not_found err)) [
      | inl absent ↦ rw absent (
          Returns-bind (set_value c' key value ttl now) _ (λ r. IsCache r.0) (λ r. IsCache r.0)
            (set_value-IsCache c' h' key value ttl now) (λ r k. k))
      | inr other ↦ rw other h'
    ]

-- The calls that change the state of the cache, but for `Close`.
pub data Call : Type 0 where
  get_call : Bytes → ℕ → Call
  set_call : Bytes → Bytes → ℤ → ℕ → Call
  delete_call : Bytes → Call
  get_or_set_call : Bytes → Bytes → ℤ → ℕ → Call
  demote_call : Bytes → Call

-- The state after a call.
unfoldable pub after : Call → Cache → Run Cache
after (get_call key now) c = do (c', _) ← get c key now; done c'
after (set_call key value ttl now) c = do (c', _) ← set_value c key value ttl now; done c'
after (delete_call key) c = do (c', _) ← delete c key; done c'
after (get_or_set_call key value ttl now) c = do (c', _) ← get_or_set c key value ttl now; done c'
after (demote_call key) c = do (c', _) ← demote c key; done c'

unfoldable pub after_all : List Call → Cache → Run Cache
after_all [] c = done c
after_all (x ∷ calls) c = do c' ← after x c; after_all calls c'

after-IsCache : (x : Call) (c : Cache) → IsCache c → Returns (after x c) IsCache
unfolding after
after-IsCache (get_call key now) c h =
    Returns-bind _ _ (λ r. IsCache r.0) _ (get-IsCache c h key now) (λ r k. k)
after-IsCache (set_call key value ttl now) c h =
    Returns-bind _ _ (λ r. IsCache r.0) _ (set_value-IsCache c h key value ttl now) (λ r k. k)
after-IsCache (delete_call key) c h =
    Returns-bind _ _ (λ r. IsCache r.0) _ (delete-IsCache c h key) (λ r k. k)
after-IsCache (get_or_set_call key value ttl now) c h =
    Returns-bind _ _ (λ r. IsCache r.0) _ (get_or_set-IsCache c h key value ttl now) (λ r k. k)
after-IsCache (demote_call key) c h =
    Returns-bind _ _ (λ r. IsCache r.0) _ (demote-IsCache c h key) (λ r k. k)

-- Any calls in any order, with any arguments, from a well-formed cache: no call panics or loops
-- for ever, and the cache stays well formed.
pub after_all-IsCache :
    (calls : List Call) (c : Cache) → IsCache c → Returns (after_all calls c) IsCache
unfolding after_all
after_all-IsCache [] c h = h
after_all-IsCache (x ∷ calls) c h =
    Returns-bind (after x c) (after_all calls) IsCache IsCache (after-IsCache x c h)
      (after_all-IsCache calls)
