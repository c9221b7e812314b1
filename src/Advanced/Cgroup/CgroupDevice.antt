-- ===== src/Advanced/Cgroup/CgroupDevice.antt =====
-- S2-advanced/examples/cgroup/cgroup_device/example_cgroup_device.bpf.c: one event for each device access of a cgroup.
use monsa_ebpf.Base.{ℕ, List, [], ◌∷◌}
use monsa_ebpf.Kernel.{Helpers, HashMap, RingBuf, Line, word}
use monsa_ebpf.Counting.{State, counted_step}

pub record BpfCgroupDevCtx : Type 0 where
  pub access_type : ℕ
  pub major : ℕ
  pub minor : ℕ

pub record CgroupDeviceEvent : Type 0 where
  pub timestamp_ns : ℕ
  pub major : ℕ
  pub minor : ℕ
  pub access_type : ℕ
  pub cgroup_id : ℕ
  pub allowed : ℕ
  pub count : ℕ

-- The stores into the reserved record, which still holds the ring's old bytes.
unfoldable pub fill : Helpers → BpfCgroupDevCtx → ℕ → CgroupDeviceEvent → CgroupDeviceEvent
fill env ctx new_count evt = record {
  timestamp_ns = env.ktime_ns;
  major = ctx.major;
  minor = ctx.minor;
  access_type = ctx.access_type;
  cgroup_id = env.cgroup_id;
  allowed = 1;
  count = new_count;
}

-- What the program prints to the trace log.
unfoldable pub lines : Helpers → BpfCgroupDevCtx → ℕ → CgroupDeviceEvent → List Line
lines env ctx new_count evt =
    record {
      format = "cgroup_device: cgroup=%llu major=%u minor=%u\n";
      args = word env.cgroup_id ∷ word ctx.major ∷ word ctx.minor ∷ [];
    }
    ∷ []

unfoldable pub msb_cgroup_device :
    (H : HashMap ℕ ℕ) (R : RingBuf CgroupDeviceEvent)
    → Helpers × BpfCgroupDevCtx
    → State H.Map R.Buf
    → ℕ × State H.Map R.Buf
msb_cgroup_device H R (env, ctx) s =
    (1, counted_step H R (env.cgroup_id) (fill env ctx) (lines env ctx) s)
