-- ===== src/Socket/Wire.antt =====
-- An `int` as the four bytes that `write(fd, &n, sizeof(int))` sends, on a little-endian machine, and
-- what `read` into it leaves.
use cgproxy.Base.{
  ℕ, ◌+◌, ◌*◌, ◌/◌, ◌%◌, ◌<◌, [], ◌∷◌, ◌++◌, Bytes, if◌then◌else◌, length, take, drop, ◌≡◌, refl,
  ap, ◌∙◌, arith, ◌==◌, ◌≢◌, All,
}
use cgproxy.Base.Int.{ℤ, pos}
use cgproxy.Base.Word.{to_u32, of_u32, IsInt, of_u32-to_u32, to_u32-lt}

abbrev pub sizeof_int : ℤ
sizeof_int = pos 4

unfoldable pub int_bytes : ℤ → Bytes
unfolding to_u32
int_bytes n =
    let u = to_u32 n in (u % 256) ∷ (u / 256 % 256) ∷ (u / 65536 % 256) ∷ (u / 16777216) ∷ []

abbrev from_bytes : Bytes → ℕ
from_bytes [] = 0
from_bytes (b ∷ bs) = b + 256 * from_bytes bs

-- The value after bytes were delivered in front of what stood there.
unfoldable pub overlay : Bytes → Bytes → Bytes
overlay new old = take 4 (new ++ drop (length new) old)

unfoldable pub bytes_int : Bytes → ℤ
unfolding of_u32
bytes_int bs = of_u32 (from_bytes bs)

-- A text up to its NUL, as `strlen` and the other functions on C strings read it.
unfoldable pub c_string : Bytes → Bytes
c_string [] = []
c_string (c ∷ cs) = let rest = c_string cs in if c == 0 then [] else c ∷ rest

abbrev pub IsText : Bytes → Type 0
IsText = All (λ c. c ≢ 0)

pub c_string_of_IsText : (t : Bytes) → IsText t → c_string t ≡ t
unfolding c_string
c_string_of_IsText [] h = refl
c_string_of_IsText (c ∷ cs) h = ground (arith, c_string_of_IsText cs h.1, h.0)

from_bytes-u32 :
    (u : ℕ)
    → u < 4294967296
    → from_bytes ((u % 256) ∷ (u / 256 % 256) ∷ (u / 65536 % 256) ∷ (u / 16777216) ∷ []) ≡ u
from_bytes-u32 u h = omega arith

-- Every `int` is read back from its bytes.
pub bytes_int-int_bytes : (n : ℤ) → IsInt n → bytes_int (int_bytes n) ≡ n
unfolding bytes_int int_bytes
bytes_int-int_bytes n h = ap of_u32 (from_bytes-u32 (to_u32 n) (to_u32-lt n)) ∙ of_u32-to_u32 n h

-- Four delivered bytes replace the old value whole; no byte leaves it.
pub overlay-int_bytes : (n : ℤ) (old : Bytes) → overlay (int_bytes n) old ≡ int_bytes n
unfolding overlay int_bytes
overlay-int_bytes n old = refl

-- No byte delivered leaves the old value.
pub overlay-nil : (n : ℤ) → overlay [] (int_bytes n) ≡ int_bytes n
unfolding overlay int_bytes
overlay-nil n = refl
