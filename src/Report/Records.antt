-- ===== src/Report/Records.antt =====
-- The records of S2-advanced/examples.
pub mod Probes
pub mod Tracing
pub mod Network
pub mod Cgroup
pub mod Sockets
pub mod Others
pub mod Basic
