-- ===== src/Advanced/Cgroup/CgroupSock.antt =====
-- S2-advanced/examples/cgroup/cgroup_sock/example_cgroup_sock.bpf.c: one event for each socket that a cgroup creates.
use monsa_ebpf.Base.{ℕ, List, [], ◌∷◌}
use monsa_ebpf.Kernel.{Helpers, HashMap, RingBuf, Line, word}
use monsa_ebpf.Counting.{State, counted_step}

pub record BpfSock : Type 0 where
  pub family : ℕ
  pub type : ℕ
  pub protocol : ℕ

pub record CgroupSockEvent : Type 0 where
  pub timestamp_ns : ℕ
  pub family : ℕ
  pub type : ℕ
  pub protocol : ℕ
  pub cgroup_id : ℕ
  pub count : ℕ

-- The stores into the reserved record, which still holds the ring's old bytes.
unfoldable pub fill : Helpers → BpfSock → ℕ → CgroupSockEvent → CgroupSockEvent
fill env ctx new_count evt = record {
  timestamp_ns = env.ktime_ns;
  family = ctx.family;
  type = ctx.type;
  protocol = ctx.protocol;
  cgroup_id = env.cgroup_id;
  count = new_count;
}

-- What the program prints to the trace log.
unfoldable pub lines : Helpers → BpfSock → ℕ → CgroupSockEvent → List Line
lines env ctx new_count evt =
    record {
      format = "cgroup_sock: cgroup=%llu family=%u type=%u\n";
      args = word env.cgroup_id ∷ word ctx.family ∷ word ctx.type ∷ [];
    }
    ∷ []

unfoldable pub msb_cgroup_sock :
    (H : HashMap ℕ ℕ) (R : RingBuf CgroupSockEvent)
    → Helpers × BpfSock
    → State H.Map R.Buf
    → ℕ × State H.Map R.Buf
msb_cgroup_sock H R (env, ctx) s =
    (1, counted_step H R (env.cgroup_id) (fill env ctx) (lines env ctx) s)
