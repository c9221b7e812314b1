-- ===== src/Advanced.antt =====
-- The programs of S2-advanced/examples: a child for each of its folders.
pub mod Tracing
pub mod Userspace
pub mod Perf
pub mod Cgroup
pub mod Network
pub mod Security
pub mod Latency
