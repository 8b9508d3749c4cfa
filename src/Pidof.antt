-- ===== src/Pidof.antt =====
-- src/common.cpp: `bash_pidof`, with `fscanf` for one `%d`.
pub mod Laws
use cgproxy.Base.{
  ℕ, zero, suc, ◌+◌, ◌*◌, ◌-◌, Bool, true, false, ◌||◌, Option, none, some, List, [], ◌∷◌, ◌++◌,
  Bytes, codes, ◌==◌, if◌then◌else◌, length,
}
use cgproxy.Base.Int.{ℤ, pos, negsuc}
use cgproxy.Base.Decimal.{is_digit, read_ℕ}
use cgproxy.Effect.{M, ret, Outcome, returned, hangs}
use cgproxy.System.{Os}

-- `isspace`
abbrev pub is_space : ℕ → Bool
is_space c = c == b' ' || c == b'\t' || c == b'\n' || c == 0x0b || c == 0x0c || c == b'\r'

skip_space : Bytes → Bytes
skip_space [] = []
skip_space (c ∷ cs) = let rest = skip_space cs in if is_space c then rest else c ∷ cs

-- The digits in front, and what stands behind them.
pub span_digits : Bytes → Bytes × Bytes
span_digits [] = ([], [])
span_digits (c ∷ cs) =
    let rest = span_digits cs in if is_digit c then (c ∷ rest.0, rest.1) else ([], c ∷ cs)

-- A number with a sign, `-0` being 0.
abbrev negated : ℕ → ℤ
negated zero = pos 0
negated (suc n) = negsuc n

-- What one `fscanf` does: the end of the text, or what it leaves behind a mismatch or a number.
pub data Scan : Type 0 where
  eof : Scan
  mismatch : Bytes → Scan
  number : ℤ → Bytes → Scan

abbrev unsigned : Bytes × Bytes → (ℕ → ℤ) → Scan
unsigned ([], rest) sign = mismatch rest
unsigned (d ∷ ds, rest) sign = number (sign (read_ℕ (d ∷ ds))) rest

-- One `fscanf(fp, "%d", &pid)`. A sign with no digit behind it is read, and is a mismatch. A number is
-- read whole; where it does not fit an `int`, C leaves the result open, and the model keeps the number.
scan_from : Bytes → Scan
unfolding span_digits
scan_from [] = eof
scan_from (c ∷ cs) =
    if c == b'-'
    then unsigned (span_digits cs) negated
    else if c == b'+'
    then unsigned (span_digits cs) pos
    else unsigned (span_digits (c ∷ cs)) pos

pub scan_int : Bytes → Scan
unfolding scan_from skip_space
scan_int input = scan_from (skip_space input)

abbrev push : ℤ → Outcome (List ℤ) → Outcome (List ℤ)
push pid (returned pids) = returned (pid ∷ pids)
push pid _ = hangs

-- The loop `while (fscanf(…) != EOF) pids.push_back(pid);` with the value of `pid` before it, and fuel
-- for its rounds; `hangs` is fuel that ran out.
pub read_pids : ℕ → ℤ → Bytes → Outcome (List ℤ)
read_pids zero pid input = hangs
read_pids (suc f) pid input = elim (scan_int input) [
  | eof ↦ returned []
  | mismatch rest ↦ push pid (read_pids f pid rest)
  | number n rest ↦ push n (read_pids f n rest)
]

-- Every round that does not end in a mismatch without a sign reads a byte at least.
pub pids_of : ℤ → Bytes → Outcome (List ℤ)
unfolding read_pids
pids_of pid input = read_pids (suc (length input)) pid input

module _ (os : Os) where
  abbrev pids_from : Option Bytes × os.State → Outcome (List ℤ) × os.State
  pids_from (none, s) = (returned [], s)
  pids_from (some out, s) = (pids_of (os.unset_int s) out, s)

  unfoldable pub bash_pidof : Bytes → M os.State (List ℤ)
  bash_pidof path s = pids_from (os.popen (codes "pidof " ++ path) s)
