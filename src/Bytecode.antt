-- ===== src/Bytecode.antt =====
-- The programs that the skeletons ship in the form that the kernel runs.
pub mod Hex
pub mod Objects
pub mod Code
pub mod Elf
pub mod Registers
pub mod Machine
pub mod Listings
pub mod Programs
pub mod Contents
pub mod Refine
