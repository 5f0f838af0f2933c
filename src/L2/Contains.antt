-- ===== src/L2/Contains.antt =====
-- pkg/l2/retry.go: `contains`, and `IsRetryable`.
use mathlib.Core.List.{append-nil}
use tieredcache.Base.{
  ℕ, zero, suc, ◌+◌, ◌-◌, ◌≤◌, ◌≡◌, refl, Bool, true, false, List, [], ◌∷◌, ◌++◌, none, some, Bytes,
  str, ltb, leb, length, if◌then◌else◌, ◌&&◌, ◌||◌, bytes_eq, bytes_eq_iff, take, drop, arith, ◌↔◌,
  ◌≢◌, ap, sym, ◌∙◌, length-append, take-length-append, drop-length-append, Bool-cases, inl, inr,
}
use tieredcache.Common.Errors.{GoError, error_text, is_nil}
use tieredcache.Common.Retryable.{as_tiered_cache_error, retryable_field}

-- The loop of `containsAt` from index `i`, for `n` more indices.
unfoldable pub scan_from : ℕ → ℕ → Bytes → Bytes → Bool
scan_from zero i s sub = false
scan_from (suc n) i s sub =
    let rest = scan_from n (i + 1) s sub in
    if bytes_eq (take (length sub) (drop i s)) sub then true else rest

-- `containsAt`, which is called with a text no shorter than the pattern.
unfoldable pub contains_at : Bytes → Bytes → Bool
unfolding scan_from
contains_at s sub = scan_from (length s - length sub + 1) 0 s sub

-- `contains`
unfoldable pub contains : Bytes → Bytes → Bool
contains s sub =
    leb (length sub) (length s) && (bytes_eq s sub || ltb 0 (length s) && contains_at s sub)

any_contained : Bytes → List Bytes → Bool
unfolding contains
any_contained text [] = false
any_contained text (p ∷ ps) =
    let rest = any_contained text ps in if contains text p then true else rest

-- `retryablePatterns`
abbrev pub retryable_patterns : List Bytes
retryable_patterns =
    str "connection refused"
    ∷ str "connection reset"
    ∷ str "timeout"
    ∷ str "temporary failure"
    ∷ str "i/o timeout"
    ∷ str "no route to host"
    ∷ str "network is unreachable"
    ∷ []

-- `IsRetryable` of pkg/l2
unfoldable pub l2_is_retryable : GoError → Bool
unfolding any_contained
l2_is_retryable err = if is_nil err then false else elim (as_tiered_cache_error err) [
  | some e ↦ retryable_field e
  | none ↦ any_contained (error_text err) retryable_patterns
]

-- The pattern stands somewhere in the text.
abbrev pub IsPart : Bytes → Bytes → Type 0
IsPart s sub = (before : Bytes) × (behind : Bytes) × (s ≡ before ++ (sub ++ behind))

take-drop : (j : ℕ) (s : Bytes) → s ≡ take j s ++ drop j s
take-drop zero s = refl
take-drop (suc j) [] = refl
take-drop (suc j) (b ∷ s) = ap (◌∷◌ b) (take-drop j s)

found_at : (j : ℕ) (s sub : Bytes) → take (length sub) (drop j s) ≡ sub → IsPart s sub
found_at j s sub e = (
  take j s,
  drop (length sub) (drop j s),
  take-drop j s
      ∙ ap (λ x. take j s ++ x)
          (take-drop (length sub) (drop j s) ∙ ap (λ x. x ++ drop (length sub) (drop j s)) e),
)

scan_from-IsPart : (n i : ℕ) (s sub : Bytes) → scan_from n i s sub ≡ true → IsPart s sub
unfolding scan_from
scan_from-IsPart zero i s sub h = cc
scan_from-IsPart (suc n) i s sub h =
    elim (Bool-cases (bytes_eq (take (length sub) (drop i s)) sub)) [
      | inl e ↦ found_at i s sub ((bytes_eq_iff _ sub).0 e)
      | inr ne ↦ scan_from-IsPart n (i + 1) s sub (rw ne at h)
    ]

scan_from-found :
    (n i j : ℕ) (s sub : Bytes)
    → i ≤ j
    → j + 1 ≤ i + n
    → take (length sub) (drop j s) ≡ sub
    → scan_from n i s sub ≡ true
unfolding scan_from
scan_from-found zero i j s sub le lt e = absurd (omega arith)
scan_from-found (suc n) i j s sub le lt e =
    elim (Bool-cases (bytes_eq (take (length sub) (drop i s)) sub)) [
      | inl here ↦ rw here refl
      | inr ne ↦ rw ne (scan_from-found n (i + 1) j s sub (omega (arith, later ne)) (omega arith) e)
    ]
  where
    later : bytes_eq (take (length sub) (drop i s)) sub ≡ false → i ≢ j
    later ne same =
        let there = ap (λ x. take (length sub) (drop x s)) same ∙ e in
        cc (ne, (bytes_eq_iff (take (length sub) (drop i s)) sub).1 there)

contains-IsPart : (s sub : Bytes) → contains s sub ≡ true → IsPart s sub
unfolding contains contains_at
contains-IsPart s sub h = elim (Bool-cases (bytes_eq s sub)) [
  | inl e ↦ ([], [], (bytes_eq_iff s sub).0 e ∙ sym (append-nil sub))
  | inr ne ↦ scan_from-IsPart (length s - length sub + 1) 0 s sub (ground (arith, h, ne))
]

none_left : (s sub : Bytes) → length s ≡ 0 → length sub ≡ 0 → bytes_eq s sub ≡ true
unfolding bytes_eq
none_left [] [] hs ht = refl
none_left [] (b ∷ t) hs ht = absurd (omega arith)
none_left (a ∷ s) t hs ht = absurd (omega arith)

IsPart-contains : (s sub : Bytes) → IsPart s sub → contains s sub ≡ true
unfolding contains contains_at
IsPart-contains s sub (before, behind, e) =
    let size : length s ≡ length before + (length sub + length behind) =
      ap length e
      ∙ length-append before (sub ++ behind)
      ∙ ap (λ n. length before + n) (length-append sub behind) in
    let there : take (length sub) (drop (length before) s) ≡ sub =
      ap (λ x. take (length sub) (drop (length before) x)) e
      ∙ ap (take (length sub)) (drop-length-append before (sub ++ behind))
      ∙ take-length-append sub behind in
    let scanned =
      scan_from-found (length s - length sub + 1) 0 (length before) s sub (omega arith)
        (omega (arith, size)) there in
    ground (arith, size, scanned, none_left s sub)

-- `contains` is the test for a part: it is true exactly if the text is something, the pattern and
-- something more, one after the other.
pub contains_iff : (s sub : Bytes) → (contains s sub ≡ true) ↔ IsPart s sub
contains_iff s sub = (contains-IsPart s sub, IsPart-contains s sub)
