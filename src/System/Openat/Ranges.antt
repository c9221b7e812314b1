-- ===== src/System/Openat/Ranges.antt =====
-- The records of example_kretprobe.bpf.c have fields in the ranges of their types.
use monsa_ebpf.Base.{
  ℕ, ◌<◌, ◌^◌, ◌≡◌, arith, ℤ, length, length-drop, signed64, low32, high32, memcpy, sub64, to_s32,
}
use monsa_ebpf.Kernel.{Helpers, HashMap}
use monsa_ebpf.Advanced.Tracing.Kretprobe.{
  KretprobeEvent, fill, take_latency, is_error_retval, error_code_of,
}
use monsa_ebpf.Advanced.Tracing.Kretprobe.Probes.{Probe, enter, leave}
use monsa_ebpf.Report.Layout.{Fits, s32, s64, int, AllFit}
use monsa_ebpf.Report.Records.Probes.{kretprobe_written, kretprobe_wire}
use monsa_ebpf.System.Counted.Ranges.{IsHelpers}

-- The helpers and registers hand over values of their types.
abbrev pub IsProbe : Probe → Type 0
IsProbe (enter env) = IsHelpers env
IsProbe (leave env ctx) = IsHelpers env × (ctx.rc < 2 ^ 64)

-- The fields of a record are values of their types.
abbrev pub IsRecord : KretprobeEvent → Type 0
IsRecord e = AllFit kretprobe_written (kretprobe_wire.stored e)

signed64-Fits : (w : ℕ) → w < 2 ^ 64 → Fits s64 (int (signed64 w))
unfolding signed64
signed64-Fits w h = ground arith

error_code_of-Fits : (ret : ℤ) → Fits s32 (int (error_code_of ret))
unfolding error_code_of is_error_retval to_s32
error_code_of-Fits ret = ground arith

is_error_retval-lt : (ret : ℤ) → is_error_retval ret < 256 ^ 1
unfolding is_error_retval
is_error_retval-lt ret = ground arith

pub take_latency-lt :
    (T : HashMap ℕ ℕ) (env : Helpers) (m : T.Map) → (take_latency T env m).1 < 2 ^ 64
unfolding take_latency sub64
take_latency-lt T env m = ground arith

-- The fields of a record, one after the other.
infixr 4 ◌▹◌
abbrev ◌▹◌ : {A B : Type 0} → A → B → A × B
◌▹◌ a b = (a, b)

pub fill-IsRecord :
    (env : Helpers) (latency rc : ℕ) (old : KretprobeEvent)
    → IsHelpers env
    → latency < 2 ^ 64
    → rc < 2 ^ 64
    → length old.func_name ≡ 32
    → IsRecord (fill env latency (signed64 rc) old)
unfolding fill high32 low32 memcpy
fill-IsRecord env latency rc old h small bound sized =
    h.time
    ▹ small
    ▹ omega arith
    ▹ omega arith
    ▹ omega arith
    ▹ omega arith
    ▹ h.cgroup
    ▹ h.name
    ▹ signed64-Fits rc bound
    ▹ is_error_retval-lt (signed64 rc)
    ▹ error_code_of-Fits (signed64 rc)
    ▹ omega (arith, length-drop 17 old.func_name)
    ▹ tt
