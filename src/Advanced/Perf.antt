-- ===== src/Advanced/Perf.antt =====
-- S2-advanced/examples/perf: samples of hardware counters.
pub mod PerfEvent
