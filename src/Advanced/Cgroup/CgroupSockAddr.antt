-- ===== src/Advanced/Cgroup/CgroupSockAddr.antt =====
-- S2-advanced/examples/cgroup/cgroup_sock_addr/example_cgroup_sock_addr.bpf.c: one event for each `connect` of a cgroup.
use monsa_ebpf.Base.{ℕ, List, [], ◌∷◌}
use monsa_ebpf.Base.{low16}
use monsa_ebpf.Kernel.{Helpers, HashMap, RingBuf, Line, word}
use monsa_ebpf.Counting.{State, counted_step}

pub record BpfSockAddr : Type 0 where
  pub user_ip4 : ℕ
  pub user_port : ℕ
  pub family : ℕ

pub record CgroupSockAddrEvent : Type 0 where
  pub timestamp_ns : ℕ
  pub saddr : ℕ
  pub daddr : ℕ
  pub sport : ℕ
  pub dport : ℕ
  pub family : ℕ
  pub cgroup_id : ℕ
  pub count : ℕ

-- The stores into the reserved record, which still holds the ring's old bytes.
unfoldable pub fill : Helpers → BpfSockAddr → ℕ → CgroupSockAddrEvent → CgroupSockAddrEvent
fill env ctx new_count evt = record {
  timestamp_ns = env.ktime_ns;
  saddr = 0;
  daddr = ctx.user_ip4;
  sport = 0;
  dport = low16 ctx.user_port;
  family = ctx.family;
  cgroup_id = env.cgroup_id;
  count = new_count;
}

-- What the program prints to the trace log.
unfoldable pub lines : Helpers → BpfSockAddr → ℕ → CgroupSockAddrEvent → List Line
lines env ctx new_count evt =
    record {
      format = "cgroup_sock_addr: cgroup=%llu daddr=%x dport=%u\n";
      args = word env.cgroup_id ∷ word ctx.user_ip4 ∷ word ctx.user_port ∷ [];
    }
    ∷ []

unfoldable pub msb_cgroup_sock_addr :
    (H : HashMap ℕ ℕ) (R : RingBuf CgroupSockAddrEvent)
    → Helpers × BpfSockAddr
    → State H.Map R.Buf
    → ℕ × State H.Map R.Buf
msb_cgroup_sock_addr H R (env, ctx) s =
    (1, counted_step H R (env.cgroup_id) (fill env ctx) (lines env ctx) s)
