-- ===== src/Advanced/Tracing.antt =====
-- S2-advanced/examples/tracing: probes on kernel functions and tracepoints.
pub mod Kprobe
pub mod RawTracepoint
pub mod Tracepoint
pub mod Kretprobe
pub mod FentryFexit
