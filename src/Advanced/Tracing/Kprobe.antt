-- ===== src/Advanced/Tracing/Kprobe.antt =====
-- S2-advanced/examples/tracing/kprobe/example_kprobe.bpf.c: one event for each `execve`.
pub mod Trace
pub mod Record
use monsa_ebpf.Base.{ℕ, ℤ, pos, Bool, true, false, Option, none, some, List, [], ◌∷◌, ◌++◌}
use monsa_ebpf.Base.{low8, low16, low32, high32, bswap16, memcpy, c_bytes, replicate, String}
use monsa_ebpf.Kernel.{Helpers, PtRegs, HashMap, RingBuf, Line, word, bytes, sk_pass}
use monsa_ebpf.Counting.{State, counted_step, sampled_step}

pub record KprobeEvent : Type 0 where
  pub timestamp_ns : ℕ
  pub pid : ℕ
  pub tid : ℕ
  pub ppid : ℕ
  pub uid : ℕ
  pub gid : ℕ
  pub cgroup_id : ℕ
  pub comm : List ℕ
  pub arg0 : ℕ
  pub arg1 : ℕ
  pub arg2 : ℕ
  pub count : ℕ
  pub func_name : List ℕ

-- The stores into the reserved record, which still holds the ring's old bytes.
unfoldable pub fill : Helpers → PtRegs → ℕ → KprobeEvent → KprobeEvent
fill env ctx new_count evt = record {
  timestamp_ns = env.ktime_ns;
  pid = high32 env.pid_tgid;
  tid = low32 env.pid_tgid;
  ppid = 0;
  uid = low32 env.uid_gid;
  gid = high32 env.uid_gid;
  cgroup_id = env.cgroup_id;
  comm = env.comm;
  arg0 = ctx.parm1;
  arg1 = ctx.parm2;
  arg2 = ctx.parm3;
  count = new_count;
  func_name = memcpy evt.func_name (c_bytes "__x64_sys_execve");
}

-- What the program prints to the trace log.
unfoldable pub lines : Helpers → PtRegs → ℕ → KprobeEvent → List Line
lines env ctx new_count evt =
    record {
      format = "kprobe[execve]: pid=%u tid=%u comm=%s\n";
      args = word evt.pid ∷ word evt.tid ∷ bytes evt.comm ∷ [];
    }
    ∷ record {
      format = "  uid=%u gid=%u cgroup=%llu count=%llu\n";
      args = word evt.uid ∷ word evt.gid ∷ word evt.cgroup_id ∷ word new_count ∷ [];
    }
    ∷ []

unfoldable pub msb_kprobe_execve :
    (H : HashMap ℕ ℕ) (R : RingBuf KprobeEvent)
    → Helpers × PtRegs
    → State H.Map R.Buf
    → ℕ × State H.Map R.Buf
msb_kprobe_execve H R (env, ctx) s =
    (0, counted_step H R (high32 env.pid_tgid) (fill env ctx) (lines env ctx) s)
