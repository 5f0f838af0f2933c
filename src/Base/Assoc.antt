-- ===== src/Base/Assoc.antt =====
-- Go maps with byte-string keys, as association lists. A map's list has each key once
-- (`IsMap`); its order stands for the unspecified order in which Go iterates.
use mathlib.Core.Path.{◌≡◌, refl, subst}
use mathlib.Core.Logic.{◌≢◌, inl, inr}
use mathlib.Core.List.{List, [], ◌∷◌}
use mathlib.Core.Option.{Option, none, some}
use Prim.Native.Nat.{ℕ, ◌+◌}
use native.Mathlib.Omega.{arith}
use tieredcache.Base.Tests.{if◌then◌else◌, Bool-cases}
use tieredcache.Base.Lists.{length, All}
use tieredcache.Base.Str.{Bytes, bytes_eq, bytes_eq_refl, bytes_eq_iff}

module _ {ℓ} {V : Type ℓ} where
  unfoldable pub lookup : Bytes → List (Bytes × V) → Option V
  lookup k [] = none
  lookup k ((j, v) ∷ m) = if bytes_eq j k then some v else lookup k m

  -- `m[k] = v`
  unfoldable pub insert : Bytes → V → List (Bytes × V) → List (Bytes × V)
  insert k v [] = (k, v) ∷ []
  insert k v ((j, w) ∷ m) = if bytes_eq j k then (k, v) ∷ m else (j, w) ∷ insert k v m

  -- `delete(m, k)`
  unfoldable pub remove : Bytes → List (Bytes × V) → List (Bytes × V)
  remove k [] = []
  remove k ((j, w) ∷ m) = let rest = remove k m in if bytes_eq j k then rest else (j, w) ∷ rest

  abbrev pub IsMap : List (Bytes × V) → Type ℓ
  IsMap [] = Unit
  IsMap ((j, _) ∷ m) = (lookup j m ≡ none) × IsMap m

  -- The sum of `f` over the values.
  abbrev pub total : (V → ℕ) → List (Bytes × V) → ℕ
  total f [] = 0
  total f ((_, v) ∷ m) = f v + total f m

module _ {ℓ} {V : Type ℓ} (k j : Bytes) where
  pub lookup-insert :
      (v : V) (m : List (Bytes × V))
      → lookup j (insert k v m) ≡ (if bytes_eq k j then some v else lookup j m)
  unfolding lookup insert
  lookup-insert v [] = refl
  lookup-insert v ((i, w) ∷ m) =
      ground (arith, bytes_eq_iff k j, bytes_eq_iff i k, bytes_eq_iff i j, lookup-insert v m)

  pub lookup-remove :
      (m : List (Bytes × V)) → lookup j (remove k m) ≡ (if bytes_eq k j then none else lookup j m)
  unfolding lookup remove
  lookup-remove [] = ground arith
  lookup-remove ((i, w) ∷ m) =
      ground (arith, bytes_eq_iff k j, bytes_eq_iff i k, bytes_eq_iff i j, lookup-remove m)

module _ {ℓ} {V : Type ℓ} (k : Bytes) where
  pub lookup-insert_self : (v : V) (m : List (Bytes × V)) → lookup k (insert k v m) ≡ some v
  lookup-insert_self v m = rw (lookup-insert k k v m, bytes_eq_refl k)

  pub lookup-remove_self : (m : List (Bytes × V)) → lookup k (remove k m) ≡ none
  lookup-remove_self m = rw (lookup-remove k k m, bytes_eq_refl k)

module _ {ℓ} {V : Type ℓ} (k q : Bytes) where
  pub lookup-insert_ne :
      (v : V) (m : List (Bytes × V)) → q ≢ k → lookup q (insert k v m) ≡ lookup q m
  lookup-insert_ne v m ne = rw (lookup-insert k q v m) (ground (arith, bytes_eq_iff k q))

  pub lookup-remove_ne : (m : List (Bytes × V)) → q ≢ k → lookup q (remove k m) ≡ lookup q m
  lookup-remove_ne m ne = rw (lookup-remove k q m) (ground (arith, bytes_eq_iff k q))

module _ {ℓ} {V : Type ℓ} (k : Bytes) where
  pub insert-IsMap : (v : V) (m : List (Bytes × V)) → IsMap m → IsMap (insert k v m)
  unfolding insert
  insert-IsMap v [] h = (unfold lookup in refl, tt)
  insert-IsMap v ((i, w) ∷ m) h =
      ground
        (arith, bytes_eq_iff i k, bytes_eq_iff k i, lookup-insert k i v m, insert-IsMap v m h.1)

  pub remove-IsMap : (m : List (Bytes × V)) → IsMap m → IsMap (remove k m)
  unfolding remove
  remove-IsMap [] h = tt
  remove-IsMap ((i, w) ∷ m) h = ground (arith, remove-IsMap m h.1, lookup-remove k i m)

  remove_absent : (m : List (Bytes × V)) → lookup k m ≡ none → remove k m ≡ m
  unfolding lookup remove
  remove_absent [] h = refl
  remove_absent ((i, w) ∷ m) h = ground (arith, remove_absent m)

  -- Deleting takes exactly the value that was found out of the sum.
  pub total-remove :
      (f : V → ℕ) (m : List (Bytes × V)) (v : V)
      → IsMap m
      → lookup k m ≡ some v
      → total f (remove k m) + f v ≡ total f m
  unfolding lookup remove
  total-remove f [] v h e = cc
  total-remove f ((i, w) ∷ m) v h e =
      ground (arith, bytes_eq_iff i k, remove_absent m, total-remove f m v h.1)

  -- Storing adds the new value to the sum, in place of the value that was found.
  pub total-insert :
      (f : V → ℕ) (v : V) (m : List (Bytes × V))
      → total f (insert k v m) + elim (lookup k m) [ none ↦ 0 | some w ↦ f w ] ≡ total f m + f v
  unfolding lookup insert
  total-insert f v [] = omega arith
  total-insert f v ((i, w) ∷ m) = ground (arith, total-insert f v m)

  pub length-remove :
      (m : List (Bytes × V)) (v : V)
      → IsMap m
      → lookup k m ≡ some v
      → length (remove k m) + 1 ≡ length m
  unfolding lookup remove
  length-remove [] v h e = cc
  length-remove ((i, w) ∷ m) v h e =
      ground (arith, bytes_eq_iff i k, remove_absent m, length-remove m v h.1)

module _ {ℓ κ} {V : Type ℓ} (P : Bytes × V → Type κ) (k : Bytes) where
  pub All-remove : (m : List (Bytes × V)) → All P m → All P (remove k m)
  unfolding remove
  All-remove [] h = tt
  All-remove ((i, w) ∷ m) h = ground (arith, h.0, All-remove m h.1)

  pub All-insert : (v : V) (m : List (Bytes × V)) → P (k, v) → All P m → All P (insert k v m)
  unfolding insert
  All-insert v [] p h = (p, tt)
  All-insert v ((i, w) ∷ m) p h = elim (Bool-cases (bytes_eq i k)) [
    | inl e ↦ rw e (p, h.1)
    | inr n ↦ rw n (h.0, All-insert v m p h.1)
  ]

  -- What holds of every entry holds of one that was found.
  pub All-lookup : (m : List (Bytes × V)) (v : V) → All P m → lookup k m ≡ some v → P (k, v)
  unfolding lookup
  All-lookup [] v h e = cc
  All-lookup ((i, w) ∷ m) v h e = elim (Bool-cases (bytes_eq i k)) [
    | inl q ↦ subst P (cc (rw q at e, (bytes_eq_iff i k).0 q)) h.0
    | inr n ↦ All-lookup m v h.1 (rw n at e)
  ]
