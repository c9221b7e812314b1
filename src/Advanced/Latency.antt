-- ===== src/Advanced/Latency.antt =====
-- `struct latency_stats` and its update, which example_fentry_fexit.bpf.c and
-- example_uretprobe.bpf.c of S2-advanced/examples share line by line.
pub mod Summary
pub mod Race
use monsa_ebpf.Base.{ℕ, Option, none, some, List, add64, ltb, if◌then◌else◌}
use monsa_ebpf.Kernel.{HashMap, Line}

pub record LatencyStats : Type 0 where
  pub count : ℕ
  pub total_ns : ℕ
  pub min_ns : ℕ
  pub max_ns : ℕ

-- `new_stats` of the first call.
unfoldable pub first_latency : ℕ → LatencyStats
first_latency latency_ns = record {
  count = 1;
  total_ns = latency_ns;
  min_ns = latency_ns;
  max_ns = latency_ns;
}

-- The stores through `stats` of a later call.
unfoldable pub add_latency : ℕ → LatencyStats → LatencyStats
add_latency latency_ns st = record {
  count = add64 st.count 1;
  total_ns = add64 st.total_ns latency_ns;
  min_ns = if ltb latency_ns st.min_ns then latency_ns else st.min_ns;
  max_ns = if ltb st.max_ns latency_ns then latency_ns else st.max_ns;
}

-- The map afterwards.
unfoldable pub record_latency : (P : HashMap ℕ LatencyStats) → ℕ → ℕ → P.Map → P.Map
record_latency P pid latency_ns m = elim (P.lookup m pid) [
  | none ↦ P.update m pid (first_latency latency_ns)
  | some st ↦ P.store m pid (add_latency latency_ns st)
]

-- The maps of either program, with its ring and its trace log.
pub record LatencyState (T P B : Type 0) : Type 0 where
  pub entry_times : T
  pub stats : P
  pub events : B
  pub log : List Line
