-- ===== src/Bytecode/Elf.antt =====
-- Where an object file keeps its sections, their relocations and the names of its symbols.
use cgproxy.Base.{
  ℕ, zero, suc, ◌+◌, ◌*◌, ◌/◌, ◌%◌, Option, none, some, List, [], ◌∷◌, ◌++◌, Bytes, codes, bytes_eq,
  take, drop, length, ◌==◌, if◌then◌else◌,
}
use cgproxy.Bytecode.Code.{MapName, records, perf_events, Places}

-- A number in little-endian order.
abbrev little : Bytes → ℕ
little [] = 0
little (b ∷ bs) = b + 256 * little bs

abbrev at : ℕ → ℕ → Bytes → ℕ
at size off file = little (take size (drop off file))

unfoldable pub concat : List Bytes → Bytes
concat [] = []
concat (r ∷ rs) = r ++ concat rs

-- A field of a section header: `e_shoff` stands at 40, a header has 64 bytes.
abbrev header : ℕ → ℕ → Bytes → ℕ
header i field file = at 8 (at 8 40 file + 64 * i + field) file

unfoldable pub section : ℕ → Bytes → Bytes
section i file = take (header i 32 file) (drop (header i 24 file) file)

-- The text up to the first 0.
abbrev text : Bytes → Bytes
text [] = []
text (b ∷ bs) = if b == 0 then [] else b ∷ text bs

-- The section in which a section of symbols or of relocations looks up, `sh_link`.
abbrev link : ℕ → Bytes → ℕ
link i file = header i 40 file % 4294967296

-- The name of a symbol, by the symbols and the names of the object.
abbrev pub symbol_name : Bytes → Bytes → ℕ → Bytes
symbol_name symbols names sym = text (drop (at 4 (24 * sym) symbols) names)

abbrev map_name : Bytes → Option MapName
map_name name =
    if bytes_eq name (codes "records")
    then some records
    else if bytes_eq name (codes "perf_events")
    then some perf_events
    else none

abbrev add_place : ℕ → Option MapName → Places → Places
add_place i (some m) ps = (i, m) ∷ ps
add_place i none ps = ps

-- The instruction and the symbol of each relocation.
abbrev relocations : ℕ → Bytes → List (ℕ × ℕ)
relocations zero _ = []
relocations (suc n) bs = (at 8 0 bs / 8, at 4 12 bs) ∷ relocations n (drop 16 bs)

abbrev places : (ℕ → Bytes) → List (ℕ × ℕ) → Places
places name [] = []
places name ((i, sym) ∷ rs) = add_place i (map_name (name sym)) (places name rs)

-- Where a section's relocations put which map, by the symbols and the names of the object.
unfoldable pub map_places : Bytes → Bytes → Bytes → Places
map_places symbols names rels =
    places (symbol_name symbols names) (relocations (length rels / 16) rels)

-- The same for the relocations in the section with this index.
unfoldable pub section_places : ℕ → Bytes → Places
unfolding section map_places
section_places i file =
    map_places (section (link i file) file) (section (link (link i file) file) file)
      (section i file)

-- The name of a section: `e_shstrndx` stands at 62.
unfoldable pub section_name : ℕ → Bytes → Bytes
section_name i file = text (drop (header i 0 file % 4294967296) (section (at 2 62 file) file))
