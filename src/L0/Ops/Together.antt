-- ===== src/L0/Ops/Together.antt =====
-- pkg/l0/l0_cache.go: operations one after the other.
use tieredcache.Base.{
  ℕ, ◌≤◌, ◌<◌, ◌≡◌, refl, Bool, true, false, none, some, Bytes, length, if◌then◌else◌, ltb, lt→ltb,
  Run, done, inl, inr, is_empty, ℤ, ap, ◌∙◌, Result, ok, fail, Option-cases,
}
use tieredcache.Common.Errors.{GoError, nil, code, not_found}
use tieredcache.Common.Entry.{new_cache_entry, is_expired_at}
use tieredcache.L0.State.{Cache}
use tieredcache.L0.Shard.{IsCache}
use tieredcache.L0.Ops.{get, set_value, get_or_set, long_key_error}
use tieredcache.L0.Ops.Place.{entry_at}
use tieredcache.L0.Ops.Writes.{set_value-Stores}
use tieredcache.L0.Ops.Reads.{get-visible, visible, get_result, Reads, unexpired}

module _ (c : Cache) (key value : Bytes) (ttl : ℤ) (now : ℕ) (h : IsCache c)
    (is_open : c.closed ≡ false) (k : is_empty key ≡ false) (v : is_empty value ≡ false)
    (fits : length value ≤ c.max_payload) where
  -- After a `Set` that is not refused, a `Get` of the key returns the value for as long as the TTL
  -- given to `Set` has not run out (for ever, if it is not positive), and then `ErrCodeNotFound`.
  -- The key must lie within the payload limit too.
  pub get-set_value :
      (later : ℕ)
      → length key ≤ c.max_payload
      → (c' c'' : Cache) × (set_value c key value ttl now ≡ done (c', nil))
        × (get c' key later
            ≡ done (c'', if is_expired_at ttl now later then fail (code not_found) else ok value))
  unfolding new_cache_entry
  get-set_value later short =
      let (c', ran, h', config, stored, _) =
        set_value-Stores c key h is_open value ttl now k v fits in
      let (c'', got, _) =
        get-visible c' key later h' (config.closed ∙ is_open) k (rw config.max_payload short) in
      (
        c',
        c'',
        ran,
        got
            ∙ ap (λ o. done (c'', get_result (unexpired later o))) stored
            ∙ expired_result c'' (is_expired_at ttl now later),
      )
    where
      expired_result :
          (d : Cache) (late : Bool)
          → ◌≡◌ {A = Run (Cache × Result GoError Bytes)}
              (done (d, get_result (if late then none else some value)))
              (done (d, if late then fail (code not_found) else ok value))
      expired_result d true = refl
      expired_result d false = refl

  -- `Set` has no limit on the key, and `Get` has: a key beyond the payload limit is stored with no
  -- error, and every `Get` of it then fails with an error about its length.
  pub get-set_value_long_key :
      (later : ℕ)
      → c.max_payload < length key
      → (c' : Cache) × (set_value c key value ttl now ≡ done (c', nil))
        × (entry_at c' key ≡ some (new_cache_entry key value ttl now))
        × (get c' key later ≡ done (c', fail (long_key_error c'.max_payload key)))
  unfolding get
  get-set_value_long_key later long =
      let (c', ran, h', config, stored, _) =
        set_value-Stores c key h is_open value ttl now k v fits in
      let long' : ltb c'.max_payload (length key) ≡ true =
        lt→ltb _ _ (rw config.max_payload long) in
      (c', ran, stored, simp (config.closed ∙ is_open, k, long'))

  -- `GetOrSet` in an open, well-formed cache, of a key and a value that are not empty and within the
  -- limits of the payload: where the cache shows a value for the key, it returns that value and false,
  -- and no value that is shown changes; where it shows none, the given value is stored as a new entry of
  -- the key and returned with true, and the cache is well formed again.
  pub get_or_set-visible :
      length key ≤ c.max_payload
      → (c' : Cache) × (get_or_set c key value ttl now
          ≡ done (
            c',
            elim (visible c now key) [ some old ↦ ok (old, false) | none ↦ ok (value, true) ],
          ))
        × ((old : Bytes) → visible c now key ≡ some old → Reads c c')
        × (visible c now key ≡ none
            → (entry_at c' key ≡ some (new_cache_entry key value ttl now)) × IsCache c')
  unfolding get_or_set
  get_or_set-visible short =
      let (c', got, reads) = get-visible c key now h is_open k short in
      elim (Option-cases (visible c now key)) [
        | inr (old, shown) ↦ (c', rw (shown, got, shown) refl, (λ _ _. reads), (λ e. cc))
        | inl absent ↦
            let (c'', ran, h'', _, stored, _) =
              set_value-Stores c' key reads.valid (reads.config.closed ∙ is_open) value ttl now k v
                (rw reads.config.max_payload fits) in
            (c'', rw (absent, got, absent, ran) refl, (λ _ e. cc), (λ _. (stored, h'')))
      ]
