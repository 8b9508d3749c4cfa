-- ===== src/Bytecode/Programs.antt =====
-- The two programs of each object: execsnoop-kernel/x86_64/execsnoop_kern_skel.h,
-- execsnoop-kernel/aarch64/execsnoop_kern_skel.h and execsnoop-libbpf/execsnoop.skel.h.
use cgproxy.Base.{ℕ, Option, some, List, Bytes, bytes_eq, ◌≡◌, refl}
use cgproxy.Bytecode.Code.{Insn, decode}
use cgproxy.Bytecode.Elf.{concat, section, map_places, section_places}
use cgproxy.Bytecode.Objects.X86_64.{x86_64_rows}
use cgproxy.Bytecode.Objects.Aarch64.{aarch64_rows}
use cgproxy.Bytecode.Objects.Libbpf.{
  libbpf_enter_rows, libbpf_exit_rows, libbpf_enter_rels_rows, libbpf_exit_rels_rows,
  libbpf_symbols_rows, libbpf_names_rows,
}
use cgproxy.Bytecode.Listings.{kernel_entry, libbpf_entry, listed_exit}

pub data Binary : Type 0 where
  x86_64 aarch64 libbpf : Binary

unfoldable pub x86_64_data : Bytes
unfolding concat
x86_64_data = concat x86_64_rows

unfoldable pub aarch64_data : Bytes
unfolding concat
aarch64_data = concat aarch64_rows

-- The program in section `code`, relocated by section `rels`.
abbrev program : ℕ → ℕ → Bytes → Option (List Insn)
unfolding decode section section_places map_places bytes_eq
program code rels file = decode (section_places rels file) (section code file)

abbrev libbpf_program : List Bytes → List Bytes → Option (List Insn)
unfolding decode concat map_places bytes_eq
libbpf_program code rels =
    decode (map_places (concat libbpf_symbols_rows) (concat libbpf_names_rows) (concat rels))
      (concat code)

-- `syscall_enter_execve` as it is shipped.
pub entry_program : Binary → Option (List Insn)
unfolding x86_64_data aarch64_data
entry_program x86_64 = program 3 4 x86_64_data
entry_program aarch64 = program 3 4 aarch64_data
entry_program libbpf = libbpf_program libbpf_enter_rows libbpf_enter_rels_rows

-- `syscall_exit_execve` as it is shipped.
pub exit_program : Binary → Option (List Insn)
unfolding x86_64_data aarch64_data
exit_program x86_64 = program 5 6 x86_64_data
exit_program aarch64 = program 5 6 aarch64_data
exit_program libbpf = libbpf_program libbpf_exit_rows libbpf_exit_rels_rows

-- The offsets of `real_parent` and `tgid` in a task, in the kernels that the objects are built for.
abbrev pub real_parent_offset : Binary → ℕ
real_parent_offset x86_64 = 1184
real_parent_offset aarch64 = 1144
real_parent_offset libbpf = 1512

abbrev pub tgid_offset : Binary → ℕ
tgid_offset x86_64 = 1172
tgid_offset aarch64 = 1132
tgid_offset libbpf = 1500

abbrev pub listed_entry : Binary → List Insn
listed_entry libbpf = libbpf_entry (real_parent_offset libbpf) (tgid_offset libbpf)
listed_entry b = kernel_entry (real_parent_offset b) (tgid_offset b)

pub entry_program-listed : (b : Binary) → entry_program b ≡ some (listed_entry b)
unfolding entry_program program x86_64_data aarch64_data concat decode section section_places
    map_places bytes_eq
entry_program-listed x86_64 = refl
entry_program-listed aarch64 = refl
entry_program-listed libbpf = refl

pub exit_program-listed : (b : Binary) → exit_program b ≡ some listed_exit
unfolding exit_program program x86_64_data aarch64_data concat decode section section_places
    map_places bytes_eq
exit_program-listed x86_64 = refl
exit_program-listed aarch64 = refl
exit_program-listed libbpf = refl
