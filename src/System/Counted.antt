-- ===== src/System/Counted.antt =====
-- The examples of S2-advanced whose program is one counter update and one record for each run: what
-- they have in common, as functions of the example.
pub mod Ranges
use monsa_ebpf.Base.{ℕ, ◌<◌, ◌≤◌, ◌^◌, ◌≡◌, refl, Bool, true, false, List, length, high32}
use monsa_ebpf.Kernel.{Helpers, PtRegs, HashMap, RingBuf}
use monsa_ebpf.Kernel
use monsa_ebpf.Counting.{State, counted_step}
use monsa_ebpf.Loader
use monsa_ebpf.Report.Delivery.{Source, advanced, EventOf}
use monsa_ebpf.Report.Layout.{Fits, s32, int}
use monsa_ebpf.Advanced.Tracing.Kprobe
use monsa_ebpf.Advanced.Tracing.RawTracepoint
use monsa_ebpf.Advanced.Tracing.Tracepoint
use monsa_ebpf.Advanced.Network.SkLookup
use monsa_ebpf.Advanced.Cgroup.CgroupBpf
use monsa_ebpf.Advanced.Cgroup.CgroupDevice
use monsa_ebpf.Advanced.Cgroup.CgroupSock
use monsa_ebpf.Advanced.Cgroup.CgroupSockAddr
use monsa_ebpf.Advanced.Cgroup.CgroupSockopt
use monsa_ebpf.Advanced.Cgroup.CgroupSysctl
use monsa_ebpf.Advanced.Userspace.Uprobe

pub data Counted : Type 0 where
  kprobe : Counted
  raw_tracepoint : Counted
  tracepoint : Counted
  sk_lookup : Counted
  cgroup_bpf : Counted
  cgroup_device : Counted
  cgroup_sock : Counted
  cgroup_sock_addr : Counted
  cgroup_sockopt : Counted
  cgroup_sysctl : Counted
  uprobe : Counted

abbrev pub source_of : Counted → Source
source_of kprobe = advanced Loader.kprobe
source_of raw_tracepoint = advanced Loader.raw_tracepoint
source_of tracepoint = advanced Loader.tracepoint
source_of sk_lookup = advanced Loader.sk_lookup
source_of cgroup_bpf = advanced Loader.cgroup_bpf
source_of cgroup_device = advanced Loader.cgroup_device
source_of cgroup_sock = advanced Loader.cgroup_sock
source_of cgroup_sock_addr = advanced Loader.cgroup_sock_addr
source_of cgroup_sockopt = advanced Loader.cgroup_sockopt
source_of cgroup_sysctl = advanced Loader.cgroup_sysctl
source_of uprobe = advanced Loader.uprobe

-- Whether the loader looks at what its polls return.
abbrev pub is_checked : Counted → Bool
is_checked kprobe = true
is_checked x = false

abbrev pub ContextOf : Counted → Type 0
ContextOf kprobe = PtRegs
ContextOf raw_tracepoint = Unit
ContextOf tracepoint = Unit
ContextOf sk_lookup = SkLookup.BpfSkLookup
ContextOf cgroup_bpf = Unit
ContextOf cgroup_device = CgroupDevice.BpfCgroupDevCtx
ContextOf cgroup_sock = CgroupSock.BpfSock
ContextOf cgroup_sock_addr = CgroupSockAddr.BpfSockAddr
ContextOf cgroup_sockopt = CgroupSockopt.BpfSockopt
ContextOf cgroup_sysctl = CgroupSysctl.BpfSysctl
ContextOf uprobe = PtRegs

-- The key whose counter a run raises.
abbrev pub key_of : (x : Counted) → Helpers × ContextOf x → ℕ
key_of kprobe (env, ctx) = high32 env.pid_tgid
key_of raw_tracepoint (env, ctx) = high32 env.pid_tgid
key_of tracepoint (env, ctx) = high32 env.pid_tgid
key_of sk_lookup (env, ctx) = ctx.local_ip4
key_of cgroup_bpf (env, ctx) = env.cgroup_id
key_of cgroup_device (env, ctx) = env.cgroup_id
key_of cgroup_sock (env, ctx) = env.cgroup_id
key_of cgroup_sock_addr (env, ctx) = env.cgroup_id
key_of cgroup_sockopt (env, ctx) = env.cgroup_id
key_of cgroup_sysctl (env, ctx) = env.cgroup_id
key_of uprobe (env, ctx) = high32 env.pid_tgid

-- The field of the record that holds it.
abbrev pub label_of : (x : Counted) → EventOf (source_of x) → ℕ
label_of kprobe e = e.pid
label_of raw_tracepoint e = e.pid
label_of tracepoint e = e.pid
label_of sk_lookup e = e.daddr
label_of cgroup_bpf e = e.cgroup_id
label_of cgroup_device e = e.cgroup_id
label_of cgroup_sock e = e.cgroup_id
label_of cgroup_sock_addr e = e.cgroup_id
label_of cgroup_sockopt e = e.cgroup_id
label_of cgroup_sysctl e = e.cgroup_id
label_of uprobe e = e.pid

unfoldable pub fill_of :
    (x : Counted) → Helpers × ContextOf x → ℕ → EventOf (source_of x) → EventOf (source_of x)
fill_of kprobe (env, ctx) = Kprobe.fill env ctx
fill_of raw_tracepoint (env, ctx) = RawTracepoint.fill env
fill_of tracepoint (env, ctx) = Tracepoint.fill env
fill_of sk_lookup (env, ctx) = SkLookup.fill env ctx
fill_of cgroup_bpf (env, ctx) = CgroupBpf.fill env
fill_of cgroup_device (env, ctx) = CgroupDevice.fill env ctx
fill_of cgroup_sock (env, ctx) = CgroupSock.fill env ctx
fill_of cgroup_sock_addr (env, ctx) = CgroupSockAddr.fill env ctx
fill_of cgroup_sockopt (env, ctx) = CgroupSockopt.fill env ctx
fill_of cgroup_sysctl (env, ctx) = CgroupSysctl.fill env ctx
fill_of uprobe (env, ctx) = Uprobe.fill env ctx

unfoldable pub lines_of :
    (x : Counted) → Helpers × ContextOf x → ℕ → EventOf (source_of x) → List Kernel.Line
lines_of kprobe (env, ctx) = Kprobe.lines env ctx
lines_of raw_tracepoint (env, ctx) = RawTracepoint.lines env
lines_of tracepoint (env, ctx) = Tracepoint.lines env
lines_of sk_lookup (env, ctx) = SkLookup.lines env ctx
lines_of cgroup_bpf (env, ctx) = CgroupBpf.lines env
lines_of cgroup_device (env, ctx) = CgroupDevice.lines env ctx
lines_of cgroup_sock (env, ctx) = CgroupSock.lines env ctx
lines_of cgroup_sock_addr (env, ctx) = CgroupSockAddr.lines env ctx
lines_of cgroup_sockopt (env, ctx) = CgroupSockopt.lines env ctx
lines_of cgroup_sysctl (env, ctx) = CgroupSysctl.lines env ctx
lines_of uprobe (env, ctx) = Uprobe.lines env ctx

module _ (H : HashMap ℕ ℕ) where
  -- The program, without its return code.
  unfoldable pub program_of :
      (x : Counted) (R : RingBuf (EventOf (source_of x)))
      → Helpers × ContextOf x
      → State H.Map R.Buf
      → State H.Map R.Buf
  program_of kprobe R i s = (Kprobe.msb_kprobe_execve H R i s).1
  program_of raw_tracepoint R (env, ctx) s = (RawTracepoint.msb_raw_tracepoint H R env s).1
  program_of tracepoint R (env, ctx) s = (Tracepoint.msb_tracepoint H R env s).1
  program_of sk_lookup R i s = (SkLookup.msb_sk_lookup H R i s).1
  program_of cgroup_bpf R (env, ctx) s = (CgroupBpf.msb_cgroup_bpf H R env s).1
  program_of cgroup_device R i s = (CgroupDevice.msb_cgroup_device H R i s).1
  program_of cgroup_sock R i s = (CgroupSock.msb_cgroup_sock H R i s).1
  program_of cgroup_sock_addr R i s = (CgroupSockAddr.msb_cgroup_sock_addr H R i s).1
  program_of cgroup_sockopt R i s = (CgroupSockopt.msb_cgroup_sockopt H R i s).1
  program_of cgroup_sysctl R i s = (CgroupSysctl.msb_cgroup_sysctl H R i s).1
  program_of uprobe R i s = (Uprobe.msb_uprobe_entry H R i s).1

  -- Each is the counter update with the emission of its record.
  pub program_of-counted_step :
      (x : Counted) (R : RingBuf (EventOf (source_of x))) (i : Helpers × ContextOf x)
      (s : State H.Map R.Buf)
      → program_of x R i s ≡ counted_step H R (key_of x i) (fill_of x i) (lines_of x i) s
  unfolding program_of fill_of lines_of Kprobe.msb_kprobe_execve RawTracepoint.msb_raw_tracepoint
      Tracepoint.msb_tracepoint SkLookup.msb_sk_lookup CgroupBpf.msb_cgroup_bpf
      CgroupDevice.msb_cgroup_device CgroupSock.msb_cgroup_sock CgroupSockAddr.msb_cgroup_sock_addr
      CgroupSockopt.msb_cgroup_sockopt CgroupSysctl.msb_cgroup_sysctl Uprobe.msb_uprobe_entry
  program_of-counted_step kprobe R i s = refl
  program_of-counted_step raw_tracepoint R i s = refl
  program_of-counted_step tracepoint R i s = refl
  program_of-counted_step sk_lookup R i s = refl
  program_of-counted_step cgroup_bpf R i s = refl
  program_of-counted_step cgroup_device R i s = refl
  program_of-counted_step cgroup_sock R i s = refl
  program_of-counted_step cgroup_sock_addr R i s = refl
  program_of-counted_step cgroup_sockopt R i s = refl
  program_of-counted_step cgroup_sysctl R i s = refl
  program_of-counted_step uprobe R i s = refl
