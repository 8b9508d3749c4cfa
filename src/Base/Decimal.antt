-- ===== src/Base/Decimal.antt =====
-- Decimal notation, as `operator<<` writes an `int` and `stoi` reads digits.
use cgproxy.Base.Tests.{ltb, leb, if◌then◌else◌, Bool-cases}
use cgproxy.Base.Strings.{Bytes}
use cgproxy.Base.Lists.{All}
use cgproxy.Base.Int.{ℤ, pos, negsuc}
use Prim.Native.Nat.{ℕ, zero, suc, ◌+◌, ◌-◌, ◌*◌, ◌/◌, ◌%◌, ◌<◌}
use mathlib.Core.Path.{◌≡◌, ap, ◌∙◌}
use mathlib.Core.Logic.{inl, inr, ◌≢◌}
use mathlib.Core.Bool.{Bool, true, ◌&&◌}
use mathlib.Core.List.{[], ◌∷◌}
use native.Mathlib.Omega.{arith}

-- The digits of `n` in front of `rest`, by fuel above `n`.
digits_onto : ℕ → ℕ → Bytes → Bytes
digits_onto zero n rest = rest
digits_onto (suc f) n rest =
    let more = digits_onto f (n / 10) ((b'0' + n % 10) ∷ rest) in
    if ltb n 10 then (b'0' + n) ∷ rest else more

unfoldable pub show_ℕ : ℕ → Bytes
unfolding digits_onto
show_ℕ n = digits_onto (suc n) n []

unfoldable pub show_ℤ : ℤ → Bytes
unfolding show_ℕ
show_ℤ (pos n) = show_ℕ n
show_ℤ (negsuc n) = b'-' ∷ show_ℕ (suc n)

abbrev pub is_digit : ℕ → Bool
is_digit c = leb b'0' c && leb c b'9'

-- The value of a string of digits, from the value of those before it.
read_onto : ℕ → Bytes → ℕ
read_onto acc [] = acc
read_onto acc (c ∷ cs) = read_onto (acc * 10 + (c - b'0')) cs

pub read_ℕ : Bytes → ℕ
unfolding read_onto
read_ℕ = read_onto 0

read_onto-digits_onto :
    (f n : ℕ) (rest : Bytes) → n < f → read_onto 0 (digits_onto f n rest) ≡ read_onto n rest
unfolding digits_onto read_onto
read_onto-digits_onto zero n rest h = elim h [ ]
read_onto-digits_onto (suc f) n rest h = elim (Bool-cases (ltb n 10)) [
  | inl small ↦ rw small (ap (λ k. read_onto k rest) (omega arith))
  | inr large ↦ rw large (
      read_onto-digits_onto f (n / 10) _ (ground arith) ∙ ap (λ k. read_onto k rest) (ground arith))
]

-- Reading what was written gives the number back.
pub read_ℕ-show_ℕ : (n : ℕ) → read_ℕ (show_ℕ n) ≡ n
unfolding read_ℕ show_ℕ
read_ℕ-show_ℕ n = read_onto-digits_onto (suc n) n [] (omega arith)

abbrev pub AreDigits : Bytes → Type 0
AreDigits = All (λ c. is_digit c ≡ true)

digits_onto-AreDigits :
    (f n : ℕ) (rest : Bytes) → n < f → AreDigits rest → AreDigits (digits_onto f n rest)
unfolding digits_onto
digits_onto-AreDigits zero n rest h r = elim h [ ]
digits_onto-AreDigits (suc f) n rest h r = elim (Bool-cases (ltb n 10)) [
  | inl small ↦ rw small (ground arith, r)
  | inr large ↦ rw large (digits_onto-AreDigits f (n / 10) _ (ground arith) (ground arith, r))
]

pub show_ℕ-AreDigits : (n : ℕ) → AreDigits (show_ℕ n)
unfolding show_ℕ
show_ℕ-AreDigits n = digits_onto-AreDigits (suc n) n [] (omega arith) tt

digits_onto-ne-nil : (f n : ℕ) (rest : Bytes) → n < f → digits_onto f n rest ≢ []
unfolding digits_onto
digits_onto-ne-nil zero n rest h = elim h [ ]
digits_onto-ne-nil (suc f) n rest h =
    ground (arith, digits_onto-ne-nil f (n / 10) ((b'0' + n % 10) ∷ rest))

pub show_ℕ-ne-nil : (n : ℕ) → show_ℕ n ≢ []
unfolding show_ℕ
show_ℕ-ne-nil n = digits_onto-ne-nil (suc n) n [] (omega arith)
