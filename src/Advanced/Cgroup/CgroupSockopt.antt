-- ===== src/Advanced/Cgroup/CgroupSockopt.antt =====
-- S2-advanced/examples/cgroup/cgroup_sockopt/example_cgroup_sockopt.bpf.c: one event for each `getsockopt` of a cgroup.
use monsa_ebpf.Base.{ℕ, ℤ, pattern32, List, [], ◌∷◌}
use monsa_ebpf.Kernel.{Helpers, HashMap, RingBuf, Line, word}
use monsa_ebpf.Counting.{State, counted_step}

pub record BpfSockopt : Type 0 where
  pub level : ℤ
  pub optname : ℤ

pub record CgroupSockoptEvent : Type 0 where
  pub timestamp_ns : ℕ
  pub level : ℤ
  pub optname : ℤ
  pub cgroup_id : ℕ
  pub count : ℕ

-- The stores into the reserved record, which still holds the ring's old bytes.
unfoldable pub fill : Helpers → BpfSockopt → ℕ → CgroupSockoptEvent → CgroupSockoptEvent
fill env ctx new_count evt = record {
  timestamp_ns = env.ktime_ns;
  level = ctx.level;
  optname = ctx.optname;
  cgroup_id = env.cgroup_id;
  count = new_count;
}

-- What the program prints to the trace log; a signed argument stands as its 32-bit pattern.
unfoldable pub lines : Helpers → BpfSockopt → ℕ → CgroupSockoptEvent → List Line
unfolding pattern32
lines env ctx new_count evt =
    record {
      format = "cgroup_sockopt: cgroup=%llu level=%d optname=%d\n";
      args = word env.cgroup_id ∷ word (pattern32 ctx.level) ∷ word (pattern32 ctx.optname) ∷ [];
    }
    ∷ []

unfoldable pub msb_cgroup_sockopt :
    (H : HashMap ℕ ℕ) (R : RingBuf CgroupSockoptEvent)
    → Helpers × BpfSockopt
    → State H.Map R.Buf
    → ℕ × State H.Map R.Buf
msb_cgroup_sockopt H R (env, ctx) s =
    (1, counted_step H R (env.cgroup_id) (fill env ctx) (lines env ctx) s)
