-- ===== src/Base/Int.antt =====
-- Signed integers: `negsuc n` is -(n + 1).
use Prim.Native.Nat.{ℕ, ◌+◌}
use mathlib.Core.Bool.{Bool, true, false}
use mathlib.Core.List.{◌∷◌}
use tieredcache.Base.Tests.{◌==◌, ltb}
use tieredcache.Base.Str.{Bytes}
use tieredcache.Base.Decimal.{decimal}

pub data ℤ : Type 0 where
  pos : ℕ → ℤ
  negsuc : ℕ → ℤ

-- `i <= 0`
abbrev pub int_not_pos : ℤ → Bool
int_not_pos (pos n) = n == 0
int_not_pos (negsuc n) = true

-- `i == 0`
abbrev pub int_is_zero : ℤ → Bool
int_is_zero (pos n) = n == 0
int_is_zero (negsuc n) = false

-- `i > n`
abbrev pub int_gt : ℤ → ℕ → Bool
int_gt (pos m) n = ltb n m
int_gt (negsuc m) n = false

-- `%v` of an integer
abbrev pub int_text : ℤ → Bytes
int_text (pos n) = decimal n
int_text (negsuc n) = b'-' ∷ decimal (n + 1)
