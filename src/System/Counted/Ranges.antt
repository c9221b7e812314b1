-- ===== src/System/Counted/Ranges.antt =====
-- The records of these programs have fields in the ranges of their types.
use monsa_ebpf.Base.{
  ℕ, ◌<◌, ◌≤◌, ◌^◌, ◌≡◌, refl, length, drop, length-drop, length-append, replicate, high32, low32,
  low16, low8, bswap16, memcpy, arith,
}
use monsa_ebpf.Kernel.{Helpers, PtRegs}
use monsa_ebpf.Report.Layout.{Fits, s32, int, AllFit}
use monsa_ebpf.Report.Delivery.{EventOf, wire_of}
use monsa_ebpf.System.Counted.{
  Counted, kprobe, raw_tracepoint, tracepoint, sk_lookup, cgroup_bpf, cgroup_device, cgroup_sock,
  cgroup_sock_addr, cgroup_sockopt, cgroup_sysctl, uprobe, source_of, ContextOf, fill_of, key_of,
  label_of,
}
use monsa_ebpf.Advanced.Tracing.Kprobe
use monsa_ebpf.Advanced.Tracing.RawTracepoint
use monsa_ebpf.Advanced.Tracing.Tracepoint
use monsa_ebpf.Advanced.Network.SkLookup
use monsa_ebpf.Advanced.Cgroup.CgroupBpf
use monsa_ebpf.Advanced.Cgroup.CgroupDevice
use monsa_ebpf.Advanced.Cgroup.CgroupSock
use monsa_ebpf.Advanced.Cgroup.CgroupSockAddr
use monsa_ebpf.Advanced.Cgroup.CgroupSockopt
use monsa_ebpf.Advanced.Cgroup.CgroupSysctl
use monsa_ebpf.Advanced.Userspace.Uprobe

-- The helpers return values of their types.
pub record IsHelpers (env : Helpers) : Type 0 where
  pub time : env.ktime_ns < 2 ^ 64
  pub cgroup : env.cgroup_id < 2 ^ 64
  pub cpu : env.cpu < 2 ^ 32
  pub name : length env.comm ≡ 16

abbrev IsRegs : PtRegs → Type 0
IsRegs ctx = (ctx.parm1 < 2 ^ 64) × (ctx.parm2 < 2 ^ 64) × (ctx.parm3 < 2 ^ 64)

-- And the fields of the context are values of theirs.
abbrev pub IsContext : (x : Counted) → ContextOf x → Type 0
IsContext kprobe ctx = IsRegs ctx
IsContext raw_tracepoint ctx = Unit
IsContext tracepoint ctx = Unit
IsContext sk_lookup ctx = (ctx.remote_ip4 < 2 ^ 32) × (ctx.local_ip4 < 2 ^ 32)
IsContext cgroup_bpf ctx = Unit
IsContext cgroup_device ctx =
    (ctx.major < 2 ^ 32) × (ctx.minor < 2 ^ 32) × (ctx.access_type < 2 ^ 32)
IsContext cgroup_sock ctx = (ctx.family < 2 ^ 32) × (ctx.type < 2 ^ 32) × (ctx.protocol < 2 ^ 32)
IsContext cgroup_sock_addr ctx = (ctx.user_ip4 < 2 ^ 32) × (ctx.family < 2 ^ 32)
IsContext cgroup_sockopt ctx = Fits s32 (int ctx.level) × Fits s32 (int ctx.optname)
IsContext cgroup_sysctl ctx = (ctx.write < 2 ^ 32) × (length ctx.name ≤ 128)
IsContext uprobe ctx = IsRegs ctx

abbrev pub IsInput : (x : Counted) → Helpers × ContextOf x → Type 0
IsInput x (env, ctx) = IsHelpers env × IsContext x ctx

-- The array that the program does not fill has the size of its type in a reserved record.
abbrev pub IsSized : (x : Counted) → EventOf (source_of x) → Type 0
IsSized kprobe old = length old.func_name ≡ 32
IsSized uprobe old = length old.func_name ≡ 32
IsSized x old = Unit

abbrev pub IsTyped : (x : Counted) → EventOf (source_of x) → Type 0
IsTyped x e = AllFit (wire_of (source_of x)).written ((wire_of (source_of x)).stored e)

pub fill_of-IsTyped :
    (x : Counted) (i : Helpers × ContextOf x) (count : ℕ) (old : EventOf (source_of x))
    → IsInput x i
    → count < 2 ^ 64
    → IsSized x old
    → IsTyped x (fill_of x i count old)
unfolding fill_of Kprobe.fill RawTracepoint.fill Tracepoint.fill SkLookup.fill CgroupBpf.fill
    CgroupDevice.fill CgroupSock.fill CgroupSockAddr.fill CgroupSockopt.fill CgroupSysctl.fill
    Uprobe.fill high32 low32 low16 low8 bswap16 memcpy
fill_of-IsTyped kprobe (env, ctx) count old (r, c) n sized =
    omega (arith, length-drop 17 old.func_name)
fill_of-IsTyped raw_tracepoint (env, ctx) count old (r, c) n sized = omega arith
fill_of-IsTyped tracepoint (env, ctx) count old (r, c) n sized = omega arith
fill_of-IsTyped sk_lookup (env, ctx) count old (r, c) n sized = omega arith
fill_of-IsTyped cgroup_bpf (env, ctx) count old (r, c) n sized = omega arith
fill_of-IsTyped cgroup_device (env, ctx) count old (r, c) n sized = omega arith
fill_of-IsTyped cgroup_sock (env, ctx) count old (r, c) n sized = omega arith
fill_of-IsTyped cgroup_sock_addr (env, ctx) count old (r, c) n sized = omega arith
fill_of-IsTyped cgroup_sockopt (env, ctx) count old (r, (level, optname)) n sized =
    (omega arith, (level, (optname, (omega arith, (omega arith, tt)))))
fill_of-IsTyped cgroup_sysctl (env, ctx) count old (r, (w, short)) n sized = omega (
  arith,
  length-append ctx.name (drop (length ctx.name) (replicate 128 0)),
  length-drop (length ctx.name) (replicate {A = ℕ} 128 0),
)
fill_of-IsTyped uprobe (env, ctx) count old (r, c) n sized =
    omega (arith, length-drop 14 old.func_name)

pub label_of-fill_of :
    (x : Counted) (i : Helpers × ContextOf x) (count : ℕ) (old : EventOf (source_of x))
    → label_of x (fill_of x i count old) ≡ key_of x i
unfolding fill_of Kprobe.fill RawTracepoint.fill Tracepoint.fill SkLookup.fill CgroupBpf.fill
    CgroupDevice.fill CgroupSock.fill CgroupSockAddr.fill CgroupSockopt.fill CgroupSysctl.fill
    Uprobe.fill
label_of-fill_of kprobe i count old = refl
label_of-fill_of raw_tracepoint i count old = refl
label_of-fill_of tracepoint i count old = refl
label_of-fill_of sk_lookup i count old = refl
label_of-fill_of cgroup_bpf i count old = refl
label_of-fill_of cgroup_device i count old = refl
label_of-fill_of cgroup_sock i count old = refl
label_of-fill_of cgroup_sock_addr i count old = refl
label_of-fill_of cgroup_sockopt i count old = refl
label_of-fill_of cgroup_sysctl i count old = refl
label_of-fill_of uprobe i count old = refl
