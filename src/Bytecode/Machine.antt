-- ===== src/Bytecode/Machine.antt =====
-- The machine of the kernel that runs the programs: execsnoop-kernel/execsnoop_kern.c and
-- execsnoop-libbpf/execsnoop.bpf.c in the form in which they are shipped. Where a program does what
-- this machine does not cover, the run has no result.
pub mod Helpers
pub mod Run
use cgproxy.Base.{
  ℕ, zero, suc, ◌+◌, ◌*◌, ◌-◌, ◌/◌, ◌%◌, ◌^◌, Bool, true, false, not, ◌&&◌, ◌||◌, Option, none,
  some, List, [], ◌∷◌, Bytes, ltb, leb, ◌==◌, if◌then◌else◌, take,
}
use cgproxy.Base.Int.{ℤ, pos, negsuc}
use cgproxy.Base.Word.{of_u32}
use cgproxy.Snoop.Kernel.{Event, empty_event, task_comm_len, Records}
use cgproxy.Bytecode.Registers.{Value, num, stack, context, a_map, field, Registers, get, put}
use cgproxy.Bytecode.Code.{
  MapName, records, perf_events, Operand, imm, reg, Alu, mov, add, lsh, rsh, Test, eq, ne, sgt,
  Insn, alu, store, load, load_wide, load_map, second_half, jump, call, exit,
}

-- What the kernel answers: the ids, the address of the current task, its memory (the number of this
-- many bytes at an address, 0 where it cannot be read), the name, the error of an update that fails,
-- and the `ret` of the context.
pub record World : Type 0 where
  pub pid_tgid : ℕ
  pub uid_gid : ℕ
  pub task : ℕ
  pub memory : ℕ → ℕ → ℕ
  pub comm : Bytes
  pub update_error : ℕ
  pub ret : ℤ

-- A write to the stack: where, how many bytes, and the number.
pub record Slot : Type 0 where
  pub off : ℕ
  pub size : ℕ
  pub value : ℕ

-- `skip` is how many instructions are passed over.
pub record Machine (S : Type 0) : Type 0 where
  pub skip : ℕ
  pub regs : Registers
  pub slots : List Slot
  pub map : S
  pub output : Option Event

pub data Next (S : Type 0) : Type 0 where
  go : Machine S → Next S
  stop : Machine S → Next S
  stuck : Next S

abbrev pub two_64 : ℕ
two_64 = 18446744073709551616

-- The 64-bit pattern of a `long`.
abbrev pub to_u64 : ℤ → ℕ
to_u64 (pos n) = n % two_64
to_u64 (negsuc n) = (two_64 - 1) - n % two_64

-- The last write counts, and only one of just these bytes can be read.
abbrev pub read_slot : ℕ → ℕ → List Slot → Option ℕ
read_slot size off [] = none
read_slot size off (s ∷ ss) =
    if s.off == off && s.size == size
    then some s.value
    else if leb (s.off + s.size) off || leb (off + size) s.off
    then read_slot size off ss
    else none

abbrev pub bind : {A B : Type 0} → Option A → (A → Option B) → Option B
bind none f = none
bind (some a) f = f a

abbrev pub next : {S : Type 0} → Option (Machine S) → Next S
next none = stuck
next (some s) = go s

-- `comm` stands at 0, `pid` at 16, `tgid` at 20, `ppid` at 24 and `uid` at 28.
abbrev set_field : ℕ → ℕ → Event → Option Event
set_field off v e =
    if off == 16
    then some (record e { pid = of_u32 v })
    else if off == 20
    then some (record e { tgid = of_u32 v })
    else if off == 24
    then some (record e { ppid = of_u32 v })
    else if off == 28
    then some (record e { uid = v })
    else none

abbrev in_stack : ℕ → ℕ → Bool
in_stack off size = leb (off + size) 512

-- Arithmetic on numbers, and the addition of a number to an address.
abbrev pub compute : Alu → Value → Value → Option Value
compute mov _ v = some v
compute add (num a) (num b) = some (num ((a + b) % two_64))
compute add (stack a) (num b) = some (stack ((a + b) % two_64))
compute add (field k a) (num b) = some (field k ((a + b) % two_64))
compute lsh (num a) (num b) = some (num (a * 2 ^ b % two_64))
compute rsh (num a) (num b) = some (num (a / 2 ^ b))
compute _ _ _ = none

-- An address in a record is not 0, and numbers are compared as signed ones by `sgt`.
abbrev pub holds : Test → Value → Value → Option Bool
holds eq (num a) (num b) = some (a == b)
holds eq (field _ _) (num zero) = some false
holds ne (num a) (num b) = some (not (a == b))
holds sgt (num a) (num b) = some (ltb ((b + two_64 / 2) % two_64) ((a + two_64 / 2) % two_64))
holds _ _ _ = none

module _ {S : Type 0} where
  abbrev pub value : Operand → Machine S → Option Value
  value (imm n) s = some (num n)
  value (reg r) s = get r s.regs

  abbrev pub set : ℕ → Option Value → Machine S → Machine S
  set r v s = record s { regs = put r v s.regs }

  abbrev pub read : ℕ → Value → Machine S → Option ℕ
  read size (stack off) s = read_slot size off s.slots
  read _ _ _ = none

  -- The `pid_t` at an address.
  abbrev pub key : Value → Machine S → Option ℤ
  key v s = bind (read 4 v s) (λ n. some (of_u32 n))

  -- Whether the 32 bytes at an address of the stack are 0.
  abbrev pub zeros : Value → Machine S → Option Bool
  zeros (stack off) s = bind (read_slot 8 off s.slots) (λ a.
      bind (read_slot 8 (off + 8) s.slots) (λ b.
        bind (read_slot 8 (off + 16) s.slots)
          (λ c. bind (read_slot 8 (off + 24) s.slots) (λ d. some (a + b + c + d == 0)))))
  zeros _ _ = none

  abbrev pub push : ℕ → ℕ → ℕ → Machine S → Machine S
  push size off v s = record s {
    slots = record { off = off; size = size; value = v % 2 ^ (8 * size) } ∷ s.slots;
  }

module _ (maps : Records) where
  -- The write of a number of this many bytes.
  abbrev pub write : ℕ → Value → ℕ → Machine maps.State → Option (Machine maps.State)
  write size (stack off) v s = if in_stack off size then some (push size off v s) else none
  write size (field k off) v s =
      if size == 4
      then bind (maps.lookup k s.map) (λ e.
        bind (set_field off (v % 4294967296) e)
          (λ f. some (record s { map = maps.assign k f s.map })))
      else none
  write _ _ _ _ = none
