-- ===== src/Advanced/Cgroup/CgroupBpf.antt =====
-- S2-advanced/examples/cgroup/cgroup_bpf/example_cgroup_bpf.bpf.c: one event for each socket that a cgroup creates.
use monsa_ebpf.Base.{ℕ, List, [], ◌∷◌}
use monsa_ebpf.Base.{high32}
use monsa_ebpf.Kernel.{Helpers, HashMap, RingBuf, Line, word}
use monsa_ebpf.Counting.{State, counted_step}

pub record CgroupBpfEvent : Type 0 where
  pub timestamp_ns : ℕ
  pub cgroup_id : ℕ
  pub pid : ℕ
  pub comm : List ℕ
  pub count : ℕ

-- The stores into the reserved record, which still holds the ring's old bytes.
unfoldable pub fill : Helpers → ℕ → CgroupBpfEvent → CgroupBpfEvent
fill env new_count evt = record {
  timestamp_ns = env.ktime_ns;
  cgroup_id = env.cgroup_id;
  pid = high32 env.pid_tgid;
  comm = env.comm;
  count = new_count;
}

-- What the program prints to the trace log.
unfoldable pub lines : Helpers → ℕ → CgroupBpfEvent → List Line
lines env new_count evt =
    record {
      format = "cgroup_bpf: cgroup=%llu pid=%u\n";
      args = word env.cgroup_id ∷ word (high32 env.pid_tgid) ∷ [];
    }
    ∷ []

unfoldable pub msb_cgroup_bpf :
    (H : HashMap ℕ ℕ) (R : RingBuf CgroupBpfEvent)
    → Helpers
    → State H.Map R.Buf
    → ℕ × State H.Map R.Buf
msb_cgroup_bpf H R env s = (1, counted_step H R (env.cgroup_id) (fill env) (lines env) s)
