-- ===== src/Bytecode/Objects.antt =====
-- The objects that the skeletons embed.
pub mod X86_64
pub mod Aarch64
pub mod Libbpf
