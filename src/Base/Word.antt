-- ===== src/Base/Word.antt =====
-- A 32-bit `int` and its bit pattern.
use cgproxy.Base.Tests.{ltb, if◌then◌else◌}
use cgproxy.Base.Int.{ℤ, pos, negsuc}
use Prim.Native.Nat.{ℕ, ◌-◌, ◌%◌, ◌<◌}
use mathlib.Core.Path.{◌≡◌}
use native.Mathlib.Omega.{arith}

-- The bit pattern, below 2 ^ 32.
unfoldable pub to_u32 : ℤ → ℕ
to_u32 (pos n) = n % 4294967296
to_u32 (negsuc n) = 4294967295 - n % 4294967296

unfoldable pub of_u32 : ℕ → ℤ
of_u32 u = if ltb u 2147483648 then pos u else negsuc (4294967295 - u)

-- The values of a 32-bit `int`.
abbrev pub IsInt : ℤ → Type 0
IsInt (pos n) = n < 2147483648
IsInt (negsuc n) = n < 2147483648

-- Every `int` is read back from its bit pattern.
pub of_u32-to_u32 : (n : ℤ) → IsInt n → of_u32 (to_u32 n) ≡ n
unfolding of_u32 to_u32
of_u32-to_u32 (pos n) h = ground arith
of_u32-to_u32 (negsuc n) h = ground arith

pub to_u32-lt : (n : ℤ) → to_u32 n < 4294967296
unfolding to_u32
to_u32-lt (pos n) = omega arith
to_u32-lt (negsuc n) = omega arith
