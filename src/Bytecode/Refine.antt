-- ===== src/Bytecode/Refine.antt =====
-- The shipped programs do what their source does: execsnoop-kernel/execsnoop_kern.c and
-- execsnoop-libbpf/execsnoop.bpf.c.
pub mod Writes
pub mod Entry
pub mod Exit
pub mod History
