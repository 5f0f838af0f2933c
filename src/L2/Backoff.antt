-- ===== src/L2/Backoff.antt =====
-- pkg/l2/retry.go: `RetryConfig` and `CalculateBackoff`. Durations are nanoseconds that are not negative.
-- The product of a duration with the multiplier, in floating point, is a parameter.
use tieredcache.Base.{
  ℕ, zero, suc, ◌*◌, ◌≤◌, ◌≡◌, refl, true, ltb, if◌then◌else◌, inl, inr, Bool-cases, arith,
}

pub record RetryConfig : Type 0 where
  pub max_retries : ℕ
  pub initial_backoff : ℕ
  pub max_backoff : ℕ
  pub multiply : ℕ → ℕ

-- `DefaultRetryConfig`: the product with 2.0 is exact for durations of up to a minute.
abbrev pub default_retry_config : RetryConfig
default_retry_config = record {
  max_retries = 3;
  initial_backoff = 100000000;
  max_backoff = 30000000000;
  multiply = λ n. 2 * n;
}

abbrev pub capped : ℕ → ℕ → ℕ
capped top n = if ltb top n then top else n

-- The loop of `CalculateBackoff`, on the attempts and the retries that are left.
unfoldable pub backoff_loop : RetryConfig → ℕ → ℕ → ℕ → ℕ
backoff_loop c zero retries backoff = backoff
backoff_loop c (suc attempts) zero backoff = backoff
backoff_loop c (suc attempts) (suc retries) backoff =
    backoff_loop c attempts retries (capped c.max_backoff (c.multiply backoff))

-- `CalculateBackoff`; an attempt that is negative counts as 0.
unfoldable pub calculate_backoff : RetryConfig → ℕ → ℕ
calculate_backoff c attempt = backoff_loop c attempt c.max_retries c.initial_backoff

-- A duration multiplied a number of times.
abbrev pub multiplied : (ℕ → ℕ) → ℕ → ℕ → ℕ
multiplied f zero n = n
multiplied f (suc k) n = multiplied f k (f n)

abbrev pub fewer : ℕ → ℕ → ℕ
fewer m n = if ltb m n then m else n

fewer-zero : (n : ℕ) → fewer zero n ≡ zero
fewer-zero n = ground arith

fewer-suc : (m n : ℕ) → fewer (suc m) (suc n) ≡ suc (fewer m n)
fewer-suc m n = ground arith

module _ (c : RetryConfig) (grows : (n : ℕ) → n ≤ c.multiply n) where
  multiplied-grows : (k n : ℕ) → n ≤ multiplied c.multiply k n
  multiplied-grows zero n = omega arith
  multiplied-grows (suc k) n = omega (arith, grows n, multiplied-grows k (c.multiply n))

  -- From the limit on, the backoff stays at the limit.
  backoff_loop-top :
      (attempts retries : ℕ) → backoff_loop c attempts retries c.max_backoff ≡ c.max_backoff
  unfolding backoff_loop
  backoff_loop-top zero retries = refl
  backoff_loop-top (suc attempts) zero = refl
  backoff_loop-top (suc attempts) (suc retries) =
      let still : capped c.max_backoff (c.multiply c.max_backoff) ≡ c.max_backoff =
        ground (arith, grows c.max_backoff) in
      rw still (backoff_loop-top attempts retries)

  backoff_loop-multiplied :
      (attempts retries n : ℕ)
      → n ≤ c.max_backoff
      → backoff_loop c attempts retries n
        ≡ capped c.max_backoff (multiplied c.multiply (fewer attempts retries) n)
  unfolding backoff_loop
  backoff_loop-multiplied zero retries n h = rw (fewer-zero retries) (ground arith)
  backoff_loop-multiplied (suc attempts) zero n h = ground arith
  backoff_loop-multiplied (suc attempts) (suc retries) n h =
      rw (fewer-suc attempts retries) (elim (Bool-cases (ltb c.max_backoff (c.multiply n))) [
        | inl over ↦
            let far : ltb c.max_backoff
                  (multiplied c.multiply (fewer attempts retries) (c.multiply n))
                ≡ true =
              ground (arith, multiplied-grows (fewer attempts retries) (c.multiply n)) in
            rw (over, far) (backoff_loop-top attempts retries)
        | inr within ↦
            rw within (backoff_loop-multiplied attempts retries (c.multiply n) (ground arith))
      ])

  -- With a multiplier that shortens no duration, and an initial backoff that is within the maximum, the
  -- backoff is the initial one multiplied once for each attempt, but no more often than there may be
  -- retries, and the maximum where that is more than it.
  pub calculate_backoff-multiplied :
      (attempt : ℕ)
      → c.initial_backoff ≤ c.max_backoff
      → calculate_backoff c attempt
        ≡ capped c.max_backoff
            (multiplied c.multiply (fewer attempt c.max_retries) c.initial_backoff)
  unfolding calculate_backoff
  calculate_backoff-multiplied attempt h =
      backoff_loop-multiplied attempt c.max_retries c.initial_backoff h
