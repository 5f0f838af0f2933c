-- ===== src/L2/Tests.antt =====
-- pkg/l2/retry.go: the theorems at concrete queues and texts.
use tieredcache.Base.{◌≡◌, true, str, ◌↔◌, ◌*◌, refl, arith}
use tieredcache.L2.Backoff.{
  default_retry_config, capped, multiplied, fewer, backoff_loop, calculate_backoff,
  calculate_backoff-multiplied,
}
use tieredcache.L2.Contains.{contains, IsPart, contains_iff}

contains_iff_example :
    (contains (str "dial: i/o timeout") (str "timeout") ≡ true)
    ↔ IsPart (str "dial: i/o timeout") (str "timeout")
contains_iff_example = contains_iff (str "dial: i/o timeout") (str "timeout")

calculate_backoff-multiplied_example :
    calculate_backoff default_retry_config 2
    ≡ capped 30000000000 (multiplied (λ n. 2 * n) (fewer 2 3) 100000000)
calculate_backoff-multiplied_example =
    calculate_backoff-multiplied default_retry_config (λ n. omega arith) 2 (omega arith)

-- After the third attempt it stays at 800 ms.
fifth_attempt : calculate_backoff default_retry_config 5 ≡ 800000000
unfolding calculate_backoff backoff_loop
fifth_attempt = refl
