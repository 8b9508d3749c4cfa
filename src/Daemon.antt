-- ===== src/Daemon.antt =====
-- src/cgproxyd.hpp: the daemon. Its state is the configuration and the system around it (`Host`).
pub mod Place
pub mod Messages
pub mod Life
pub mod Exclusion
pub mod Interleave
