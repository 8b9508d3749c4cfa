-- ===== src/Bytecode/Listings.antt =====
-- The programs of the objects as listings of instructions.
use cgproxy.Base.{ℕ, List, [], ◌∷◌}
use cgproxy.Bytecode.Code.{
  records, perf_events, imm, reg, mov, add, lsh, rsh, eq, ne, sgt, Insn, alu, store, load,
  load_wide, load_map, second_half, jump, call, exit,
}

-- The entry of `execve` in the objects of execsnoop-kernel, with the offsets of `real_parent` and of
-- `tgid` in a task.
abbrev pub kernel_entry : ℕ → ℕ → List Insn
kernel_entry real_parent tgid =
    call 14
    ∷ alu mov 6 (reg 0)
    ∷ store 4 10 18446744073709551612 6
    ∷ call 15
    ∷ alu mov 7 (reg 0)
    ∷ alu mov 1 (imm 0)
    ∷ store 8 10 18446744073709551592 1
    ∷ store 8 10 18446744073709551584 1
    ∷ store 8 10 18446744073709551576 1
    ∷ store 8 10 18446744073709551568 1
    ∷ alu mov 2 (reg 10)
    ∷ alu add 2 (imm 18446744073709551612)
    ∷ alu mov 3 (reg 10)
    ∷ alu add 3 (imm 18446744073709551568)
    ∷ load_map 1 records
    ∷ second_half
    ∷ alu mov 4 (imm 1)
    ∷ call 2
    ∷ alu lsh 0 (imm 32)
    ∷ alu rsh 0 (imm 32)
    ∷ jump ne 0 (imm 0) 25
    ∷ alu mov 2 (reg 10)
    ∷ alu add 2 (imm 18446744073709551612)
    ∷ load_map 1 records
    ∷ second_half
    ∷ call 1
    ∷ alu mov 8 (reg 0)
    ∷ jump eq 8 (imm 0) 18
    ∷ alu rsh 6 (imm 32)
    ∷ load 4 1 18446744073709551612 10
    ∷ store 4 8 28 7
    ∷ store 4 8 20 6
    ∷ store 4 8 16 1
    ∷ call 35
    ∷ alu add 0 (imm real_parent)
    ∷ alu mov 1 (reg 10)
    ∷ alu add 1 (imm 18446744073709551600)
    ∷ alu mov 2 (imm 8)
    ∷ alu mov 3 (reg 0)
    ∷ call 4
    ∷ alu add 8 (imm 24)
    ∷ load 8 3 18446744073709551600 10
    ∷ alu add 3 (imm tgid)
    ∷ alu mov 1 (reg 8)
    ∷ alu mov 2 (imm 4)
    ∷ call 4
    ∷ alu mov 0 (imm 0)
    ∷ exit
    ∷ []

-- The same in the object of execsnoop-libbpf.
abbrev pub libbpf_entry : ℕ → ℕ → List Insn
libbpf_entry real_parent tgid =
    call 14
    ∷ alu mov 6 (reg 0)
    ∷ store 4 10 18446744073709551612 6
    ∷ call 15
    ∷ alu mov 7 (reg 0)
    ∷ alu mov 1 (imm 0)
    ∷ store 8 10 18446744073709551592 1
    ∷ store 8 10 18446744073709551584 1
    ∷ store 8 10 18446744073709551576 1
    ∷ store 8 10 18446744073709551568 1
    ∷ alu mov 2 (reg 10)
    ∷ alu add 2 (imm 18446744073709551612)
    ∷ alu mov 3 (reg 10)
    ∷ alu add 3 (imm 18446744073709551568)
    ∷ load_map 1 records
    ∷ second_half
    ∷ alu mov 4 (imm 1)
    ∷ call 2
    ∷ jump ne 0 (imm 0) 27
    ∷ alu mov 2 (reg 10)
    ∷ alu add 2 (imm 18446744073709551612)
    ∷ load_map 1 records
    ∷ second_half
    ∷ call 1
    ∷ alu mov 8 (reg 0)
    ∷ jump eq 8 (imm 0) 20
    ∷ alu rsh 6 (imm 32)
    ∷ load 4 1 18446744073709551612 10
    ∷ store 4 8 28 7
    ∷ store 4 8 20 6
    ∷ store 4 8 16 1
    ∷ call 35
    ∷ alu mov 1 (imm real_parent)
    ∷ alu add 0 (reg 1)
    ∷ alu mov 1 (reg 10)
    ∷ alu add 1 (imm 18446744073709551600)
    ∷ alu mov 2 (imm 8)
    ∷ alu mov 3 (reg 0)
    ∷ call 4
    ∷ alu mov 1 (imm tgid)
    ∷ load 8 3 18446744073709551600 10
    ∷ alu add 3 (reg 1)
    ∷ alu add 8 (imm 24)
    ∷ alu mov 1 (reg 8)
    ∷ alu mov 2 (imm 4)
    ∷ call 4
    ∷ alu mov 0 (imm 0)
    ∷ exit
    ∷ []

-- The exit of `execve` in all objects.
abbrev pub listed_exit : List Insn
listed_exit =
    alu mov 6 (reg 1)
    ∷ call 14
    ∷ store 4 10 18446744073709551612 0
    ∷ alu mov 2 (reg 10)
    ∷ alu add 2 (imm 18446744073709551612)
    ∷ load_map 1 records
    ∷ second_half
    ∷ call 1
    ∷ alu mov 7 (reg 0)
    ∷ jump eq 7 (imm 0) 19
    ∷ load 8 1 16 6
    ∷ alu mov 2 (imm 0)
    ∷ jump sgt 2 (reg 1) 11
    ∷ alu mov 1 (reg 7)
    ∷ alu mov 2 (imm 16)
    ∷ call 16
    ∷ alu mov 1 (reg 6)
    ∷ load_map 2 perf_events
    ∷ second_half
    ∷ load_wide 3 4294967295
    ∷ second_half
    ∷ alu mov 4 (reg 7)
    ∷ alu mov 5 (imm 32)
    ∷ call 25
    ∷ alu mov 2 (reg 10)
    ∷ alu add 2 (imm 18446744073709551612)
    ∷ load_map 1 records
    ∷ second_half
    ∷ call 3
    ∷ alu mov 0 (imm 0)
    ∷ exit
    ∷ []
