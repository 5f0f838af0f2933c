-- ===== src/Base/Floats.antt =====
-- The float64 of Go, by its 64 bits, and the comparisons that the program makes.
use Prim.Native.Nat.{ℕ, ◌+◌, ◌/◌, ◌%◌, ◌^◌}
use mathlib.Core.Bool.{Bool, false, not, ◌&&◌, ◌||◌}
use tieredcache.Base.Tests.{ltb, ◌==◌, if◌then◌else◌}

-- The sign bit, eleven bits of the exponent and 52 of the fraction.
abbrev pub Float : Type 0
Float = ℕ

abbrev pub is_negative : Float → Bool
is_negative x = x / 2 ^ 63 == 1

-- Exponent and fraction, which order the values of one sign.
abbrev pub magnitude : Float → ℕ
magnitude x = x % 2 ^ 63

-- The largest exponent with a fraction that is not 0.
abbrev pub is_nan : Float → Bool
is_nan x = ltb 0x7FF0000000000000 (magnitude x)

-- `x < y`. A comparison with NaN is false, and -0 is 0.
unfoldable pub float_ltb : Float → Float → Bool
float_ltb x y =
    if is_nan x || is_nan y
    then false
    else if is_negative x && is_negative y
    then ltb (magnitude y) (magnitude x)
    else if is_negative x
    then ltb 0 (magnitude x + magnitude y)
    else if is_negative y
    then false
    else ltb (magnitude x) (magnitude y)

-- `x <= y`
unfoldable pub float_leb : Float → Float → Bool
unfolding float_ltb
float_leb x y = not (is_nan x) && (not (is_nan y) && not (float_ltb y x))

abbrev pub float_zero : Float
float_zero = 0

abbrev pub float_one : Float
float_one = 0x3FF0000000000000
