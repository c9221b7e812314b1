-- ===== src/Advanced/Tracing/Tracepoint.antt =====
-- S2-advanced/examples/tracing/tracepoint/example_tracepoint.bpf.c: one event for each exec, from a tracepoint.
use monsa_ebpf.Base.{ℕ, ℤ, pos, List, [], ◌∷◌}
use monsa_ebpf.Base.{low32, high32}
use monsa_ebpf.Kernel.{Helpers, HashMap, RingBuf, Line, word, bytes}
use monsa_ebpf.Counting.{State, counted_step}

pub record TpEvent : Type 0 where
  pub timestamp_ns : ℕ
  pub pid : ℕ
  pub tid : ℕ
  pub uid : ℕ
  pub gid : ℕ
  pub cgroup_id : ℕ
  pub comm : List ℕ
  pub count : ℕ
  pub prio : ℤ
  pub cpu : ℕ

-- The stores into the reserved record, which still holds the ring's old bytes.
unfoldable pub fill : Helpers → ℕ → TpEvent → TpEvent
fill env new_count evt = record {
  timestamp_ns = env.ktime_ns;
  pid = high32 env.pid_tgid;
  tid = low32 env.pid_tgid;
  uid = low32 env.uid_gid;
  gid = high32 env.uid_gid;
  cgroup_id = env.cgroup_id;
  comm = env.comm;
  count = new_count;
  prio = pos 0;
  cpu = env.cpu;
}

-- What the program prints to the trace log.
unfoldable pub lines : Helpers → ℕ → TpEvent → List Line
lines env new_count evt =
    record {
      format = "tracepoint: pid=%u comm=%s cpu=%u\n";
      args = word evt.pid ∷ bytes evt.comm ∷ word evt.cpu ∷ [];
    }
    ∷ []

unfoldable pub msb_tracepoint :
    (H : HashMap ℕ ℕ) (R : RingBuf TpEvent) → Helpers → State H.Map R.Buf → ℕ × State H.Map R.Buf
msb_tracepoint H R env s = (0, counted_step H R (high32 env.pid_tgid) (fill env) (lines env) s)
