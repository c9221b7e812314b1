-- ===== src/Advanced/Tracing/RawTracepoint.antt =====
-- S2-advanced/examples/tracing/raw_tracepoint/example_raw_tracepoint.bpf.c: one event for each exec, from a raw tracepoint.
use monsa_ebpf.Base.{ℕ, List, [], ◌∷◌}
use monsa_ebpf.Base.{low32, high32}
use monsa_ebpf.Kernel.{Helpers, HashMap, RingBuf, Line, word, bytes}
use monsa_ebpf.Counting.{State, counted_step}

pub record RawTpEvent : Type 0 where
  pub timestamp_ns : ℕ
  pub pid : ℕ
  pub tid : ℕ
  pub uid : ℕ
  pub gid : ℕ
  pub cgroup_id : ℕ
  pub comm : List ℕ
  pub count : ℕ
  pub cpu : ℕ

-- The stores into the reserved record, which still holds the ring's old bytes.
unfoldable pub fill : Helpers → ℕ → RawTpEvent → RawTpEvent
fill env new_count evt = record {
  timestamp_ns = env.ktime_ns;
  pid = high32 env.pid_tgid;
  tid = low32 env.pid_tgid;
  uid = low32 env.uid_gid;
  gid = high32 env.uid_gid;
  cgroup_id = env.cgroup_id;
  comm = env.comm;
  count = new_count;
  cpu = env.cpu;
}

-- What the program prints to the trace log.
unfoldable pub lines : Helpers → ℕ → RawTpEvent → List Line
lines env new_count evt =
    record {
      format = "raw_tracepoint: pid=%u comm=%s cpu=%u\n";
      args = word evt.pid ∷ bytes evt.comm ∷ word evt.cpu ∷ [];
    }
    ∷ []

unfoldable pub msb_raw_tracepoint :
    (H : HashMap ℕ ℕ) (R : RingBuf RawTpEvent) → Helpers → State H.Map R.Buf → ℕ × State H.Map R.Buf
msb_raw_tracepoint H R env s = (0, counted_step H R (high32 env.pid_tgid) (fill env) (lines env) s)
