-- ===== src/Advanced/Cgroup/CgroupSysctl.antt =====
-- S2-advanced/examples/cgroup/cgroup_sysctl/example_cgroup_sysctl.bpf.c: one event for each sysctl access of a cgroup.
use monsa_ebpf.Base.{ℕ, List, [], ◌∷◌}
use monsa_ebpf.Base.{memcpy, replicate}
use monsa_ebpf.Kernel.{Helpers, HashMap, RingBuf, Line, word}
use monsa_ebpf.Counting.{State, counted_step}

-- With the bytes that `bpf_sysctl_get_name` writes into its buffer.
pub record BpfSysctl : Type 0 where
  pub write : ℕ
  pub name : List ℕ

abbrev pub max_sysctl_len : ℕ
max_sysctl_len = 128

pub record CgroupSysctlEvent : Type 0 where
  pub timestamp_ns : ℕ
  pub name : List ℕ
  pub write : ℕ
  pub cgroup_id : ℕ
  pub count : ℕ

-- The stores into the reserved record, which still holds the ring's old bytes.
unfoldable pub fill : Helpers → BpfSysctl → ℕ → CgroupSysctlEvent → CgroupSysctlEvent
fill env ctx new_count evt = record {
  timestamp_ns = env.ktime_ns;
  name = memcpy (replicate max_sysctl_len 0) ctx.name;
  write = ctx.write;
  cgroup_id = env.cgroup_id;
  count = new_count;
}

-- What the program prints to the trace log.
unfoldable pub lines : Helpers → BpfSysctl → ℕ → CgroupSysctlEvent → List Line
lines env ctx new_count evt =
    record {
      format = "cgroup_sysctl: cgroup=%llu write=%u\n";
      args = word env.cgroup_id ∷ word ctx.write ∷ [];
    }
    ∷ []

unfoldable pub msb_cgroup_sysctl :
    (H : HashMap ℕ ℕ) (R : RingBuf CgroupSysctlEvent)
    → Helpers × BpfSysctl
    → State H.Map R.Buf
    → ℕ × State H.Map R.Buf
msb_cgroup_sysctl H R (env, ctx) s =
    (1, counted_step H R (env.cgroup_id) (fill env ctx) (lines env ctx) s)
