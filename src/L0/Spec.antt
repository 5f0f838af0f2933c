-- ===== src/L0/Spec.antt =====
-- pkg/l0: what the in-memory cache promises, with no shards, ring or accounts: a map that shows values
-- until they expire, and that may lose any other key when a value is stored.
pub mod Answers
pub mod Steps
pub mod Refines
mod Tests
use tieredcache.Base.{
  ℕ, ◌<◌, ◌≤◌, ◌≡◌, ◌≢◌, ◌⊎◌, Bool, true, false, List, [], ◌∷◌, Option, none, some, Bytes, is_empty,
  length, ltb, ◌||◌, if◌then◌else◌, ℤ, Result, ok, fail,
}
use tieredcache.Common.Errors.{GoError, nil, code, not_found}
use tieredcache.Common.Entry.{is_expired_at}
use tieredcache.L0.Ops.Total.{Call, get_call, set_call, delete_call, get_or_set_call, demote_call}

-- The value that is shown for a key at a time.
abbrev pub View : Type 0
View = ℕ → Bytes → Option Bytes

abbrev pub empty_view : View
empty_view t q = none

abbrev pub Same : View → View → Type 0
Same a b = (t : ℕ) (q : Bytes) → b t q ≡ a t q

-- A value is shown for a key from now until its time to live runs out; another key is shown as before, or
-- no more.
pub record Stored (key value : Bytes) (ttl : ℤ) (now : ℕ) (a b : View) : Type 0 where
  pub shown : (t : ℕ) → b t key ≡ (if is_expired_at ttl now t then none else some value)
  pub others : (q : Bytes) → q ≢ key → ((t : ℕ) → b t q ≡ a t q) ⊎ ((t : ℕ) → b t q ≡ none)

-- A key is not shown any more; every other key is shown as before.
pub record Removed (key : Bytes) (a b : View) : Type 0 where
  pub gone : (t : ℕ) → b t key ≡ none
  pub others : (q : Bytes) → q ≢ key → (t : ℕ) → b t q ≡ a t q

-- What a call returns.
pub data Reply : Type 0 where
  value_reply : Result GoError Bytes → Reply
  error_reply : GoError → Reply
  stored_reply : Result GoError (Bytes × Bool) → Reply

-- The keys that `Get` takes, and the values that `Set` takes.
abbrev pub bad_key : ℕ → Bytes → Bool
bad_key limit key = is_empty key || ltb limit (length key)

abbrev pub bad_value : ℕ → Bytes → Bool
bad_value limit value = is_empty value || ltb limit (length value)

-- The steps of a cache with a payload limit.
pub data Step (limit : ℕ) (a b : View) : Call → Reply → Type 0 where
  get_shown :
      (key v : Bytes) (now : ℕ)
      → bad_key limit key ≡ false
      → a now key ≡ some v
      → Same a b
      → Step limit a b (get_call key now) (value_reply (ok v))
  get_absent :
      (key : Bytes) (now : ℕ)
      → bad_key limit key ≡ false
      → a now key ≡ none
      → Same a b
      → Step limit a b (get_call key now) (value_reply (fail (code not_found)))
  get_refused :
      (key : Bytes) (now : ℕ) (err : GoError)
      → bad_key limit key ≡ true
      → err ≢ nil
      → Same a b
      → Step limit a b (get_call key now) (value_reply (fail err))
  set_stored :
      (key value : Bytes) (ttl : ℤ) (now : ℕ)
      → (is_empty key || bad_value limit value) ≡ false
      → Stored key value ttl now a b
      → Step limit a b (set_call key value ttl now) (error_reply nil)
  set_refused :
      (key value : Bytes) (ttl : ℤ) (now : ℕ) (err : GoError)
      → (is_empty key || bad_value limit value) ≡ true
      → err ≢ nil
      → Same a b
      → Step limit a b (set_call key value ttl now) (error_reply err)
  key_deleted :
      (key : Bytes)
      → is_empty key ≡ false
      → Removed key a b
      → Step limit a b (delete_call key) (error_reply nil)
  delete_absent :
      (key : Bytes)
      → Removed key a b
      → Same a b
      → Step limit a b (delete_call key) (error_reply (code not_found))
  delete_refused :
      (key : Bytes) (err : GoError)
      → is_empty key ≡ true
      → err ≢ nil
      → Same a b
      → Step limit a b (delete_call key) (error_reply err)
  key_demoted : (key : Bytes) → Removed key a b → Step limit a b (demote_call key) (error_reply nil)
  demote_absent :
      (key : Bytes)
      → Removed key a b
      → Same a b
      → Step limit a b (demote_call key) (error_reply (code not_found))
  kept :
      (key value v : Bytes) (ttl : ℤ) (now : ℕ)
      → bad_key limit key ≡ false
      → a now key ≡ some v
      → Same a b
      → Step limit a b (get_or_set_call key value ttl now) (stored_reply (ok (v, false)))
  newly_stored :
      (key value : Bytes) (ttl : ℤ) (now : ℕ)
      → (bad_key limit key || bad_value limit value) ≡ false
      → a now key ≡ none
      → Stored key value ttl now a b
      → Step limit a b (get_or_set_call key value ttl now) (stored_reply (ok (value, true)))
  not_stored :
      (key value : Bytes) (ttl : ℤ) (now : ℕ) (err : GoError)
      → (bad_key limit key || bad_value limit value) ≡ true
      → err ≢ nil
      → Same a b
      → Step limit a b (get_or_set_call key value ttl now) (stored_reply (fail err))

-- The calls of a program, with what they return.
pub data Trace (limit : ℕ) : View → List Call → List Reply → View → Type 0 where
  stay : (a : View) → Trace limit a [] [] a
  then_call :
      (a b c : View) (x : Call) (r : Reply) (calls : List Call) (replies : List Reply)
      → Step limit a b x r
      → Trace limit b calls replies c
      → Trace limit a (x ∷ calls) (r ∷ replies) c
