-- ===== src/Bytecode/Registers.antt =====
-- The registers of the machine and what they hold.
use cgproxy.Base.{ℕ, Option, none, ◌==◌, if◌then◌else◌}
use cgproxy.Base.Int.{ℤ}
use cgproxy.Bytecode.Code.{MapName}

-- A register holds a number, an address in the stack (of 512 bytes), the context, a map, or an address
-- in the record of a process.
pub data Value : Type 0 where
  num : ℕ → Value
  stack : ℕ → Value
  context : Value
  a_map : MapName → Value
  field : ℤ → ℕ → Value

-- The registers; one that was not written, or that a call has overwritten, cannot be read.
pub record Registers : Type 0 where
  pub r0 : Option Value
  pub r1 : Option Value
  pub r2 : Option Value
  pub r3 : Option Value
  pub r4 : Option Value
  pub r5 : Option Value
  pub r6 : Option Value
  pub r7 : Option Value
  pub r8 : Option Value
  pub r9 : Option Value
  pub r10 : Option Value

abbrev pub get : ℕ → Registers → Option Value
get n rs =
    if n == 0
    then rs.r0
    else if n == 1
    then rs.r1
    else if n == 2
    then rs.r2
    else if n == 3
    then rs.r3
    else if n == 4
    then rs.r4
    else if n == 5
    then rs.r5
    else if n == 6
    then rs.r6
    else if n == 7
    then rs.r7
    else if n == 8
    then rs.r8
    else if n == 9
    then rs.r9
    else if n == 10
    then rs.r10
    else none

-- Register 10 cannot be written.
abbrev pub put : ℕ → Option Value → Registers → Registers
put n v rs =
    if n == 0
    then record rs { r0 = v }
    else if n == 1
    then record rs { r1 = v }
    else if n == 2
    then record rs { r2 = v }
    else if n == 3
    then record rs { r3 = v }
    else if n == 4
    then record rs { r4 = v }
    else if n == 5
    then record rs { r5 = v }
    else if n == 6
    then record rs { r6 = v }
    else if n == 7
    then record rs { r7 = v }
    else if n == 8
    then record rs { r8 = v }
    else if n == 9
    then record rs { r9 = v }
    else rs
