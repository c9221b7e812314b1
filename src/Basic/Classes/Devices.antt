-- ===== src/Basic/Classes/Devices.antt =====
-- The counters of S1-basic/examples/cgroup/cgroup_device.
use monsa_ebpf.Base.{ℕ, ◌+◌, ◌*◌, ◌^◌, ◌<◌, ◌≡◌, arith}
use monsa_ebpf.Basic.PerCpu.{PerCpuArray, bump}
use monsa_ebpf.Basic.Classes.{dev_idx, dev_other_cnt, msb_cgroup_dev}

-- The kernel hands over the access in the upper half of `access_type` and the device type in the
-- lower half. Every such value with an access is allowed, and counted under `dev_other_cnt`.
pub msb_cgroup_dev_other :
    (A : PerCpuArray ℕ) (cpu access dev : ℕ) (m : A.Map)
    → 0 < access
    → dev < 2 ^ 16
    → msb_cgroup_dev A (cpu, access * 2 ^ 16 + dev) m ≡ (1, bump A cpu dev_other_cnt m)
unfolding msb_cgroup_dev dev_idx
msb_cgroup_dev_other A cpu access dev m some_access word = ground arith
