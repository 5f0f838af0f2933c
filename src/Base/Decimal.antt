-- ===== src/Base/Decimal.antt =====
-- The decimal numeral of a number, as `%d` prints it.
use Prim.Native.Nat.{ℕ, zero, suc, ◌+◌, ◌-◌, ◌/◌, ◌%◌}
use mathlib.Core.Path.{◌≡◌, refl}
use mathlib.Core.List.{[], ◌∷◌}
use tieredcache.Base.Tests.{ltb, if◌then◌else◌}
use tieredcache.Base.Str.{Bytes, str}

digits_before : ℕ → ℕ → Bytes → Bytes
digits_before zero n rest = rest
digits_before (suc fuel) n rest =
    let shown = (b'0' + n % 10) ∷ rest in
    let more = digits_before fuel (n / 10) shown in if ltb n 10 then shown else more

-- One round for each digit, so the number itself is enough fuel.
unfoldable pub decimal : ℕ → Bytes
unfolding digits_before
decimal n = digits_before (suc n) n []

decimal_test : decimal 40960 ≡ str "40960"
unfolding decimal
decimal_test = refl

hex_before : ℕ → ℕ → Bytes → Bytes
hex_before zero n rest = rest
hex_before (suc fuel) n rest =
    let d = n % 16 in
    let shown = (if ltb d 10 then b'0' + d else b'A' + d - 10) ∷ rest in
    let more = hex_before fuel (n / 16) shown in if ltb n 16 then shown else more

-- `0x%X`
unfoldable pub hexadecimal : ℕ → Bytes
unfolding hex_before
hexadecimal n = b'0' ∷ b'x' ∷ hex_before 16 n []

hexadecimal_test : hexadecimal 0x534E4150 ≡ str "0x534E4150"
unfolding hexadecimal
hexadecimal_test = refl
