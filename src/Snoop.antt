-- ===== src/Snoop.antt =====
-- The part that watches for started programs: the BPF programs in the kernel, the loop that reads their
-- events, and the tools that print them.
pub mod Kernel
pub mod Loop
pub mod Tools
pub mod Skeleton
pub mod Bcc
