-- ===== src/Base/Word.antt =====
-- Machine words, and the outcome of code that may panic.
use Prim.Native.Nat.{ℕ, zero, suc, ◌+◌, ◌-◌, ◌*◌, ◌/◌, ◌%◌, ◌^◌, ◌<◌, bit_xor}
use mathlib.Core.Path.{◌≡◌, refl}
use mathlib.Core.List.{[], ◌∷◌}
use native.Mathlib.Omega.{arith}
use tieredcache.Base.Tests.{◌==◌, if◌then◌else◌}
use tieredcache.Base.Lists.{length}
use tieredcache.Base.Str.{Bytes, str}

-- A `uint64`, and an `int` by its 64-bit pattern: sums and differences wrap.
abbrev pub u64 : ℕ → ℕ
u64 n = n % 2 ^ 64

abbrev pub add64 : ℕ → ℕ → ℕ
add64 a b = (a + b) % 2 ^ 64

abbrev pub sub64 : ℕ → ℕ → ℕ
sub64 a b = (a + 2 ^ 64 - b % 2 ^ 64) % 2 ^ 64

-- `fnv.New32a`, the FNV-1a hash of the standard library.
fnv32a_from : ℕ → Bytes → ℕ
fnv32a_from h [] = h
fnv32a_from h (b ∷ s) = fnv32a_from (bit_xor h b * 16777619 % 2 ^ 32) s

unfoldable pub fnv32a : Bytes → ℕ
unfolding fnv32a_from
fnv32a s = fnv32a_from 2166136261 s

-- `fnv.New64a`.
fnv64a_from : ℕ → Bytes → ℕ
fnv64a_from h [] = h
fnv64a_from h (b ∷ s) = fnv64a_from (bit_xor h b * 1099511628211 % 2 ^ 64) s

unfoldable pub fnv64a : Bytes → ℕ
unfolding fnv64a_from
fnv64a s = fnv64a_from 14695981039346656037 s

-- FNV-1a of "a" is 0xE40C292C.
fnv32a_of_a : fnv32a (b'a' ∷ []) ≡ 0xE40C292C
unfolding fnv32a
fnv32a_of_a = refl

-- `binary.Write` of a uint32, and `binary.Read` of the bytes of an unsigned number, both big-endian.
unfoldable pub be32 : ℕ → Bytes
be32 n = n / 2 ^ 24 % 256 ∷ n / 2 ^ 16 % 256 ∷ n / 2 ^ 8 % 256 ∷ n % 256 ∷ []

unfoldable pub be_value : Bytes → ℕ
be_value [] = 0
be_value (b ∷ s) = b * 256 ^ length s + be_value s

pub be_value-be32 : (n : ℕ) → n < 2 ^ 32 → be_value (be32 n) ≡ n
unfolding be_value be32
be_value-be32 n h = omega arith

-- `crc32.NewIEEE`: eight shifts for each byte.
crc_shift : ℕ → ℕ → ℕ
crc_shift zero c = c
crc_shift (suc n) c = crc_shift n (if c % 2 == 1 then bit_xor (c / 2) 0xEDB88320 else c / 2)

crc_from : ℕ → Bytes → ℕ
unfolding crc_shift
crc_from c [] = c
crc_from c (b ∷ s) = crc_from (crc_shift 8 (bit_xor c b)) s

-- The sum after `Write` of some bytes; it starts from 0.
unfoldable pub crc32 : ℕ → Bytes → ℕ
unfolding crc_from
crc32 h s = bit_xor (crc_from (bit_xor h 0xFFFFFFFF) s) 0xFFFFFFFF

-- The sum of "123456789" is 0xCBF43926.
crc32_check : crc32 0 (str "123456789") ≡ 0xCBF43926
unfolding crc32
crc32_check = refl

-- The outcome of code that may stop with a run-time panic, or run out of the fuel of a loop.
pub data Run {ℓ} (A : Type ℓ) : Type ℓ where
  done : A → Run A
  panic : Run A
  no_fuel : Run A

infixl 5 ◌>>=◌
abbrev pub ◌>>=◌ {ℓ κ} : {A : Type ℓ} {B : Type κ} → Run A → (A → Run B) → Run B
done a >>= f = f a
panic >>= f = panic
no_fuel >>= f = no_fuel

-- What a Go function with results `(A, error)` returns: a value, or an error that is not nil.
pub data Result {ℓ κ} (E : Type κ) (A : Type ℓ) : Type (ℓ ⊔ κ) where
  ok : A → Result E A
  fail : E → Result E A

-- The run ends well, with a result of which `P` holds.
abbrev pub Returns : {A : Type 0} → Run A → (A → Type 0) → Type 0
Returns (done a) P = P a
Returns panic P = ⊥
Returns no_fuel P = ⊥

pub Returns-bind :
    {A B : Type 0} (m : Run A) (f : A → Run B) (P : A → Type 0) (Q : B → Type 0)
    → Returns m P
    → ((a : A) → P a → Returns (f a) Q)
    → Returns (m >>= f) Q
Returns-bind (done a) f P Q h k = k a h
Returns-bind panic f P Q h k = absurd h
Returns-bind no_fuel f P Q h k = absurd h

pub Returns-map :
    {A : Type 0} (m : Run A) (P Q : A → Type 0) → Returns m P → ((a : A) → P a → Q a) → Returns m Q
Returns-map (done a) P Q h k = k a h
Returns-map panic P Q h k = absurd h
Returns-map no_fuel P Q h k = absurd h

-- A run that ends well has a result.
pub Returns-result :
    {A : Type 0} (m : Run A) (P : A → Type 0) → Returns m P → (a : A) × (m ≡ done a) × P a
Returns-result (done a) P h = (a, refl, h)
Returns-result panic P h = absurd h
Returns-result no_fuel P h = absurd h

pub Returns-done :
    {A : Type 0} (m : Run A) (P : A → Type 0) (a : A) → m ≡ done a → P a → Returns m P
Returns-done m P a e h = rw e h
