-- ===== src/Bytecode/Contents.antt =====
-- What create_skeleton of execsnoop-kernel/x86_64/execsnoop_kern_skel.h and of
-- execsnoop-kernel/aarch64/execsnoop_kern_skel.h fills in.
use cgproxy.Base.{
  ℕ, zero, suc, Bool, true, ◌&&◌, List, [], ◌∷◌, Bytes, codes, contains, bytes_eq, length, ◌≡◌,
  refl,
}
use cgproxy.Snoop.Skeleton.{Arch, x86_64, aarch64}
use cgproxy.Bytecode.Elf.{section, section_name, symbol_name, concat}
use cgproxy.Bytecode.Programs.{x86_64_data, aarch64_data}

-- `struct bpf_object_skeleton`; the counts of maps and programs are the lengths of the lists.
pub record Contents : Type 0 where
  pub name : Bytes
  pub maps : List Bytes
  pub progs : List Bytes
  pub data_sz : ℕ
  pub object : Bytes

pub x86_64_contents : Contents
x86_64_contents = record {
  name = codes "execsnoop_kern";
  maps = codes "perf_events" ∷ codes "records" ∷ [];
  progs = codes "syscall_enter_execve" ∷ codes "syscall_exit_execve" ∷ [];
  data_sz = 2320;
  object = x86_64_data;
}

pub aarch64_contents : Contents
aarch64_contents = record {
  name = codes "execsnoop_kern";
  maps = codes "perf_events" ∷ codes "records" ∷ [];
  progs = codes "syscall_enter_execve" ∷ codes "syscall_exit_execve" ∷ [];
  data_sz = 2024;
  object = aarch64_data;
}

pub contents : Arch → Contents
contents x86_64 = x86_64_contents
contents aarch64 = aarch64_contents

-- The section with the symbols of the object.
abbrev symbols : Arch → ℕ
symbols x86_64 = 12
symbols aarch64 = 10

abbrev names_of : ℕ → Bytes → Bytes → List Bytes
names_of zero table names = []
names_of (suc n) table names = symbol_name table names n ∷ names_of n table names

-- The names of the symbols; there are fewer than 14.
abbrev symbol_names : Arch → List Bytes
symbol_names a =
    names_of 14 (section (symbols a) (contents a).object) (section 1 (contents a).object)

abbrev all_in : List Bytes → List Bytes → Bool
all_in [] ys = true
all_in (x ∷ xs) ys = contains x ys && all_in xs ys

-- The size is that of the data, the maps and the programs are symbols of the object, and the programs
-- stand in the sections of their tracepoints.
contents-match :
    (a : Arch)
    → (length (contents a).object ≡ (contents a).data_sz)
      × (all_in (contents a).maps (symbol_names a) ≡ true)
      × (all_in (contents a).progs (symbol_names a) ≡ true)
      × (section_name 3 (contents a).object ≡ codes "tracepoint/syscalls/sys_enter_execve")
      × (section_name 5 (contents a).object ≡ codes "tracepoint/syscalls/sys_exit_execve")
unfolding contents x86_64_contents aarch64_contents x86_64_data aarch64_data concat section
    section_name contains bytes_eq
contents-match x86_64 = (refl, refl, refl, refl, refl)
contents-match aarch64 = (refl, refl, refl, refl, refl)
