-- ===== src/Bytecode/Code.antt =====
-- The instructions of the programs, and how the kernel reads them out of a section.
use cgproxy.Base.{
  ℕ, ◌+◌, ◌*◌, ◌/◌, ◌%◌, Option, none, some, List, [], ◌∷◌, Bytes, ltb, ◌==◌, if◌then◌else◌,
}

pub data MapName : Type 0 where
  records perf_events : MapName

pub data Operand : Type 0 where
  imm reg : ℕ → Operand

pub data Alu : Type 0 where
  mov add lsh rsh : Alu

pub data Test : Type 0 where
  eq ne sgt : Test

-- The numbers are: registers, sizes in bytes, offsets and immediates as 64-bit patterns, and how many
-- instructions a jump passes over.
pub data Insn : Type 0 where
  alu : Alu → ℕ → Operand → Insn
  store : ℕ → ℕ → ℕ → ℕ → Insn
  load : ℕ → ℕ → ℕ → ℕ → Insn
  load_wide : ℕ → ℕ → Insn
  load_map : ℕ → MapName → Insn
  second_half : Insn
  jump : Test → ℕ → Operand → ℕ → Insn
  call : ℕ → Insn
  exit : Insn

-- `struct bpf_insn`
pub record Raw : Type 0 where
  pub code : ℕ
  pub regs : ℕ
  pub off : ℕ
  pub imm : ℕ

abbrev raws : Bytes → List Raw
raws (c ∷ r ∷ o ∷ p ∷ i ∷ j ∷ k ∷ l ∷ bs) =
    record { code = c; regs = r; off = o + 256 * p; imm = i + 256 * (j + 256 * (k + 256 * l)) }
    ∷ raws bs
raws _ = []

-- The sign extension of 16 and of 32 bits to 64.
abbrev extend_16 : ℕ → ℕ
extend_16 n = if ltb n 32768 then n else n + 18446744073709486080

abbrev extend_32 : ℕ → ℕ
extend_32 n = if ltb n 2147483648 then n else n + 18446744069414584320

-- Which map the loader puts in at which instruction.
abbrev pub Places : Type 0
Places = List (ℕ × MapName)

abbrev place : ℕ → Places → Option MapName
place i [] = none
place i ((j, m) ∷ ps) = if i == j then some m else place i ps

abbrev wide : Option MapName → ℕ → ℕ → ℕ → Insn
wide (some m) dst low high = load_map dst m
wide none dst low high = load_wide dst (low + 4294967296 * high)

abbrev high_half : List Raw → ℕ
high_half [] = 0
high_half (x ∷ xs) = x.imm

-- An instruction at its place, before the further ones. Jumps that go back, and instructions that the
-- programs do not use, are refused.
abbrev insn : Option MapName → List Raw → Raw → Option Insn
insn m xs x =
    let dst = x.regs % 16 in
    let src = x.regs / 16 in
    let off = extend_16 x.off in
    let num = extend_32 x.imm in
    let forward = λ (i : Insn). if ltb x.off 32768 then some i else none in
    if x.code == 183
    then some (alu mov dst (imm num))
    else if x.code == 191
    then some (alu mov dst (reg src))
    else if x.code == 7
    then some (alu add dst (imm num))
    else if x.code == 15
    then some (alu add dst (reg src))
    else if x.code == 103
    then some (alu lsh dst (imm num))
    else if x.code == 119
    then some (alu rsh dst (imm num))
    else if x.code == 99
    then some (store 4 dst off src)
    else if x.code == 123
    then some (store 8 dst off src)
    else if x.code == 97
    then some (load 4 dst off src)
    else if x.code == 121
    then some (load 8 dst off src)
    else if x.code == 24
    then some (wide m dst x.imm (high_half xs))
    else if x.code == 0
    then some second_half
    else if x.code == 21
    then forward (jump eq dst (imm num) x.off)
    else if x.code == 85
    then forward (jump ne dst (imm num) x.off)
    else if x.code == 109
    then forward (jump sgt dst (reg src) x.off)
    else if x.code == 133
    then some (call x.imm)
    else if x.code == 149
    then some exit
    else none

abbrev cons : Option Insn → Option (List Insn) → Option (List Insn)
cons (some x) (some xs) = some (x ∷ xs)
cons _ _ = none

abbrev insns : Places → ℕ → List Raw → Option (List Insn)
insns ps i [] = some []
insns ps i (x ∷ xs) = cons (insn (place i ps) xs x) (insns ps (i + 1) xs)

-- The program that stands in a section.
unfoldable pub decode : Places → Bytes → Option (List Insn)
decode ps bs = insns ps 0 (raws bs)
