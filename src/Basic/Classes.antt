-- ===== src/Basic/Classes.antt =====
-- The programs of S1-basic/examples/cgroup that count events by their class: cgroup_bpf,
-- cgroup_device, cgroup_sock_addr, cgroup_sockopt and cgroup_sysctl.
pub mod Commands
pub mod Devices
use monsa_ebpf.Base.{ℕ, Bool, ◌==◌, if◌then◌else◌}
use monsa_ebpf.Basic.PerCpu.{PerCpuArray, bump}

-- `enum counter_idx` of example_cgroup_bpf.bpf.c
abbrev pub prog_load_cnt : ℕ
prog_load_cnt = 0

abbrev pub map_create_cnt : ℕ
map_create_cnt = 1

abbrev pub prog_attach_cnt : ℕ
prog_attach_cnt = 2

abbrev pub prog_detach_cnt : ℕ
prog_detach_cnt = 3

abbrev pub other_cmd_cnt : ℕ
other_cmd_cnt = 4

abbrev pub cmd_counter_max : ℕ
cmd_counter_max = 5

-- `enum bpf_cmd` of linux/bpf.h.
abbrev pub bpf_map_create : ℕ
bpf_map_create = 0

abbrev pub bpf_prog_load : ℕ
bpf_prog_load = 5

abbrev pub bpf_prog_attach : ℕ
bpf_prog_attach = 8

abbrev pub bpf_prog_detach : ℕ
bpf_prog_detach = 9

-- The switch on `cmd`.
unfoldable pub cmd_idx : ℕ → ℕ
cmd_idx cmd =
    if cmd == bpf_prog_load
    then prog_load_cnt
    else (if cmd == bpf_map_create
        then map_create_cnt
        else (if cmd == bpf_prog_attach
            then prog_attach_cnt
            else (if cmd == bpf_prog_detach then prog_detach_cnt else other_cmd_cnt)))

-- `enum counter_idx` of example_cgroup_device.bpf.c
abbrev pub dev_read_cnt : ℕ
dev_read_cnt = 0

abbrev pub dev_write_cnt : ℕ
dev_write_cnt = 1

abbrev pub dev_mknod_cnt : ℕ
dev_mknod_cnt = 2

abbrev pub dev_other_cnt : ℕ
dev_other_cnt = 3

-- `BPF_DEVCG_ACC_*` of linux/bpf.h.
abbrev pub bpf_devcg_acc_mknod : ℕ
bpf_devcg_acc_mknod = 1

abbrev pub bpf_devcg_acc_read : ℕ
bpf_devcg_acc_read = 2

abbrev pub bpf_devcg_acc_write : ℕ
bpf_devcg_acc_write = 4

-- The switch on `ctx->access_type`.
unfoldable pub dev_idx : ℕ → ℕ
dev_idx access_type =
    if access_type == bpf_devcg_acc_read
    then dev_read_cnt
    else (if access_type == bpf_devcg_acc_write
        then dev_write_cnt
        else (if access_type == bpf_devcg_acc_mknod then dev_mknod_cnt else dev_other_cnt))

-- Each handler takes the CPU it runs on, and returns its code with the array.
module _ (A : PerCpuArray ℕ) where
  unfoldable pub msb_lsm_bpf : ℕ × ℕ → A.Map → ℕ × A.Map
  msb_lsm_bpf (cpu, cmd) m = (0, bump A cpu (cmd_idx cmd) m)

  unfoldable pub msb_cgroup_dev : ℕ × ℕ → A.Map → ℕ × A.Map
  msb_cgroup_dev (cpu, access_type) m = (1, bump A cpu (dev_idx access_type) m)

  unfoldable pub msb_cgroup_sysctl : ℕ × ℕ → A.Map → ℕ × A.Map
  msb_cgroup_sysctl (cpu, write) m = (1, bump A cpu (if write == 0 then 0 else 1) m)

  unfoldable pub msb_setsockopt : ℕ → A.Map → ℕ × A.Map
  msb_setsockopt cpu m = (1, bump A cpu 0 m)

  unfoldable pub msb_getsockopt : ℕ → A.Map → ℕ × A.Map
  msb_getsockopt cpu m = (1, bump A cpu 1 m)

  unfoldable pub msb_connect4 : ℕ → A.Map → ℕ × A.Map
  msb_connect4 cpu m = (1, bump A cpu 0 m)

  unfoldable pub msb_connect6 : ℕ → A.Map → ℕ × A.Map
  msb_connect6 cpu m = (1, bump A cpu 0 m)

  unfoldable pub msb_bind4 : ℕ → A.Map → ℕ × A.Map
  msb_bind4 cpu m = (1, bump A cpu 1 m)

  unfoldable pub msb_bind6 : ℕ → A.Map → ℕ × A.Map
  msb_bind6 cpu m = (1, bump A cpu 1 m)

  unfoldable pub msb_sendmsg4 : ℕ → A.Map → ℕ × A.Map
  msb_sendmsg4 cpu m = (1, bump A cpu 2 m)

  unfoldable pub msb_sendmsg6 : ℕ → A.Map → ℕ × A.Map
  msb_sendmsg6 cpu m = (1, bump A cpu 2 m)
