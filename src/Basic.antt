-- ===== src/Basic.antt =====
-- The programs of S1-basic/examples, which count events and keep no ring of samples.
pub mod PerCpu
pub mod Counters
pub mod Classes
pub mod Probes
