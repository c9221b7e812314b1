-- ===== src/Advanced/Perf/PerfEvent.antt =====
-- S2-advanced/examples/perf/example_perf_event.bpf.c: a sample of the hardware counter events of each process.
use monsa_ebpf.Base.{ℕ, List, [], ◌∷◌}
use monsa_ebpf.Base.{low32, high32}
use monsa_ebpf.Kernel.{Helpers, HashMap, RingBuf, Line, word}
use monsa_ebpf.Counting.{State, sampled_step}

pub record BpfPerfEventData : Type 0 where
  pub sample_period : ℕ

pub record PerfSample : Type 0 where
  pub timestamp_ns : ℕ
  pub pid : ℕ
  pub tid : ℕ
  pub cpu : ℕ
  pub period : ℕ
  pub comm : List ℕ
  pub count : ℕ

-- The stores into the reserved record, which still holds the ring's old bytes.
unfoldable pub fill : Helpers → BpfPerfEventData → ℕ → PerfSample → PerfSample
fill env ctx new_count evt = record {
  timestamp_ns = env.ktime_ns;
  pid = high32 env.pid_tgid;
  tid = low32 env.pid_tgid;
  cpu = env.cpu;
  period = ctx.sample_period;
  comm = env.comm;
  count = new_count;
}

-- What the program prints to the trace log.
unfoldable pub lines : Helpers → BpfPerfEventData → ℕ → PerfSample → List Line
lines env ctx new_count evt =
    record {
      format = "perf_event: pid=%u cpu=%u period=%llu\n";
      args = word evt.pid ∷ word evt.cpu ∷ word evt.period ∷ [];
    }
    ∷ []

unfoldable pub msb_perf_event :
    (H : HashMap ℕ ℕ) (R : RingBuf PerfSample)
    → Helpers × BpfPerfEventData
    → State H.Map R.Buf
    → ℕ × State H.Map R.Buf
msb_perf_event H R (env, ctx) s =
    (0, sampled_step H R (high32 env.pid_tgid) (fill env ctx) (lines env ctx) s)
