-- ===== src/Advanced/Userspace/Uretprobe.antt =====
-- S2-advanced/examples/userspace/uretprobe/example_uretprobe.bpf.c: the latency of each call of a
-- user function, with statistics for each process.
pub mod Exit
pub mod Ledger
use monsa_ebpf.Base.{ℕ, ℤ, pos, negsuc, neg, ◌+◌, ◌*◌, ◌/◌, ◌%◌, Bool, true, false, not, ◌&&◌, ◌||◌}
use monsa_ebpf.Base.{Option, none, some, List, [], ◌∷◌, ◌++◌, length, replicate, ltb, ◌==◌}
use monsa_ebpf.Base.{if◌then◌else◌, ltb_int, leb_int, String}
use monsa_ebpf.Base.{add64, sub64, low32, high32, signed64, to_s32, pattern32, memcpy, c_bytes}
use monsa_ebpf.Kernel.{Helpers, PtRegs, HashMap, RingBuf, Line, word, bytes}
use monsa_ebpf.Advanced.Latency.{LatencyStats, LatencyState, record_latency}

pub record UretprobeEvent : Type 0 where
  pub timestamp_ns : ℕ
  pub pid : ℕ
  pub tid : ℕ
  pub uid : ℕ
  pub gid : ℕ
  pub entry_ts : ℕ
  pub exit_ts : ℕ
  pub latency_ns : ℕ
  pub retval : ℤ
  pub comm : List ℕ

unfoldable pub fill : Helpers → PtRegs → ℕ → UretprobeEvent → UretprobeEvent
fill env ctx entry_ts evt = record {
  timestamp_ns = env.ktime_ns;
  pid = high32 env.pid_tgid;
  tid = low32 env.pid_tgid;
  uid = low32 env.uid_gid;
  gid = high32 env.uid_gid;
  entry_ts = entry_ts;
  exit_ts = env.ktime_ns;
  latency_ns = sub64 env.ktime_ns entry_ts;
  retval = signed64 ctx.rc;
  comm = env.comm;
}

module _ (T : HashMap ℕ ℕ) (P : HashMap ℕ LatencyStats) (R : RingBuf UretprobeEvent) where
  unfoldable pub msb_uretprobe_entry :
      Helpers → LatencyState T.Map P.Map R.Buf → ℕ × LatencyState T.Map P.Map R.Buf
  msb_uretprobe_entry env s =
      (0, record s { entry_times = T.update s.entry_times env.pid_tgid env.ktime_ns })

  -- From the reservation to the label `cleanup`.
  unfoldable pub report :
      Helpers → PtRegs → ℕ → LatencyState T.Map P.Map R.Buf → LatencyState T.Map P.Map R.Buf
  report env ctx entry_ts s = elim (R.reserve s.events) [
    | none ↦ s
    | some (b, old) ↦
        let pid = high32 env.pid_tgid in
        let latency_ns = sub64 env.ktime_ns entry_ts in
        record s {
          stats = record_latency P pid latency_ns s.stats;
          events = R.submit b (fill env ctx entry_ts old);
          log =
              s.log
              ++ record {
                format = "uretprobe: pid=%u latency=%llu retval=%lld\n";
                args = word pid ∷ word latency_ns ∷ word ctx.rc ∷ [];
              }
                ∷ [];
        }
  ]

  unfoldable pub msb_uretprobe_exit :
      Helpers × PtRegs → LatencyState T.Map P.Map R.Buf → ℕ × LatencyState T.Map P.Map R.Buf
  msb_uretprobe_exit (env, ctx) s = elim (T.lookup s.entry_times env.pid_tgid) [
    | none ↦ (0, s)
    | some entry_ts ↦
        let t = report env ctx entry_ts s in
        (0, record t { entry_times = T.delete t.entry_times env.pid_tgid })
  ]
