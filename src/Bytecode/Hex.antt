-- ===== src/Bytecode/Hex.antt =====
-- The bytes of the objects that the skeletons embed: a row of two hexadecimal digits a byte for each
-- line of the source.
use cgproxy.Base.{ℕ, ◌+◌, ◌*◌, ◌-◌, String, [], ◌∷◌, Bytes, codes, leb, if◌then◌else◌}

abbrev digit : ℕ → ℕ
digit c = if leb 97 c then c - 87 else c - 48

abbrev pairs : Bytes → Bytes
pairs (a ∷ b ∷ cs) = (digit a * 16 + digit b) ∷ pairs cs
pairs _ = []

abbrev pub hex : String → Bytes
hex s = pairs (codes s)
