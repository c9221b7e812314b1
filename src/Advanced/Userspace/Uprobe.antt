-- ===== src/Advanced/Userspace/Uprobe.antt =====
-- S2-advanced/examples/userspace/uprobe/example_uprobe.bpf.c: one event for each call of a user function.
use monsa_ebpf.Base.{ℕ, List, [], ◌∷◌}
use monsa_ebpf.Base.{low32, high32, memcpy, c_bytes}
use monsa_ebpf.Kernel.{Helpers, PtRegs, HashMap, RingBuf, Line, word, bytes}
use monsa_ebpf.Counting.{State, counted_step}

pub record UprobeEvent : Type 0 where
  pub timestamp_ns : ℕ
  pub pid : ℕ
  pub tid : ℕ
  pub uid : ℕ
  pub gid : ℕ
  pub cgroup_id : ℕ
  pub comm : List ℕ
  pub arg0 : ℕ
  pub arg1 : ℕ
  pub arg2 : ℕ
  pub count : ℕ
  pub func_name : List ℕ

-- The stores into the reserved record, which still holds the ring's old bytes.
unfoldable pub fill : Helpers → PtRegs → ℕ → UprobeEvent → UprobeEvent
fill env ctx new_count evt = record {
  timestamp_ns = env.ktime_ns;
  pid = high32 env.pid_tgid;
  tid = low32 env.pid_tgid;
  uid = low32 env.uid_gid;
  gid = high32 env.uid_gid;
  cgroup_id = env.cgroup_id;
  comm = env.comm;
  arg0 = ctx.parm1;
  arg1 = ctx.parm2;
  arg2 = ctx.parm3;
  count = new_count;
  func_name = memcpy evt.func_name (c_bytes "user_function");
}

-- What the program prints to the trace log.
unfoldable pub lines : Helpers → PtRegs → ℕ → UprobeEvent → List Line
lines env ctx new_count evt =
    record {
      format = "uprobe: pid=%u comm=%s count=%llu\n";
      args = word evt.pid ∷ bytes evt.comm ∷ word new_count ∷ [];
    }
    ∷ []

unfoldable pub msb_uprobe_entry :
    (H : HashMap ℕ ℕ) (R : RingBuf UprobeEvent)
    → Helpers × PtRegs
    → State H.Map R.Buf
    → ℕ × State H.Map R.Buf
msb_uprobe_entry H R (env, ctx) s =
    (0, counted_step H R (high32 env.pid_tgid) (fill env ctx) (lines env ctx) s)
