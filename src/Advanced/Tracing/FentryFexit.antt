-- ===== src/Advanced/Tracing/FentryFexit.antt =====
-- S2-advanced/examples/tracing/fentry_fexit/example_fentry_fexit.bpf.c: the latency of each
-- `do_sys_openat2`, with statistics for each process.
pub mod Exit
pub mod Ledger
pub mod Numbering
use monsa_ebpf.Base.{ℕ, ℤ, pos, negsuc, neg, ◌+◌, ◌*◌, ◌/◌, ◌%◌, Bool, true, false, not, ◌&&◌, ◌||◌}
use monsa_ebpf.Base.{Option, none, some, List, [], ◌∷◌, ◌++◌, length, replicate, ltb, ◌==◌}
use monsa_ebpf.Base.{if◌then◌else◌, ltb_int, leb_int, String}
use monsa_ebpf.Base.{add64, sub64, low32, high32, signed64, to_s32, pattern32, memcpy, c_bytes}
use monsa_ebpf.Kernel.{Helpers, PtRegs, HashMap, RingBuf, Line, word, bytes}
use monsa_ebpf.Advanced.Latency.{
  LatencyStats, LatencyState, first_latency, add_latency, record_latency,
}

pub record FentryFexitEvent : Type 0 where
  pub timestamp_ns : ℕ
  pub pid : ℕ
  pub tid : ℕ
  pub uid : ℕ
  pub gid : ℕ
  pub cgroup_id : ℕ
  pub comm : List ℕ
  pub entry_ts : ℕ
  pub exit_ts : ℕ
  pub latency_ns : ℕ
  pub retval : ℕ
  pub count : ℕ

-- `evt->count`: one for a first call, else `stats->count + 1`, read after the atomic add.
unfoldable pub event_count : Option LatencyStats → ℕ → ℕ
unfolding add_latency
event_count none latency_ns = 1
event_count (some st) latency_ns = add64 (add_latency latency_ns st).count 1

-- `ret` is the pattern of the returned long.
unfoldable pub fill : Helpers → ℕ → ℕ → ℕ → FentryFexitEvent → FentryFexitEvent
fill env entry_ts ret count evt = record {
  timestamp_ns = env.ktime_ns;
  pid = high32 env.pid_tgid;
  tid = low32 env.pid_tgid;
  uid = low32 env.uid_gid;
  gid = high32 env.uid_gid;
  cgroup_id = env.cgroup_id;
  comm = env.comm;
  entry_ts = entry_ts;
  exit_ts = env.ktime_ns;
  latency_ns = sub64 env.ktime_ns entry_ts;
  retval = ret;
  count = count;
}

module _ (T : HashMap ℕ ℕ) (P : HashMap ℕ LatencyStats) (R : RingBuf FentryFexitEvent) where
  unfoldable pub msb_fentry :
      Helpers × ℕ → LatencyState T.Map P.Map R.Buf → ℕ × LatencyState T.Map P.Map R.Buf
  msb_fentry (env, filename) s = (
    0,
    record s {
      entry_times = T.update s.entry_times env.pid_tgid env.ktime_ns;
      log =
          s.log
          ++ record {
            format = "fentry: pid=%u filename=%llx\n";
            args = word (high32 env.pid_tgid) ∷ word filename ∷ [];
          }
            ∷ [];
    },
  )

  -- From the reservation to the label `cleanup`.
  unfoldable pub report :
      Helpers → ℕ → ℕ → LatencyState T.Map P.Map R.Buf → LatencyState T.Map P.Map R.Buf
  report env ret entry_ts s = elim (R.reserve s.events) [
    | none ↦ s
    | some (b, old) ↦
        let pid = high32 env.pid_tgid in
        let latency_ns = sub64 env.ktime_ns entry_ts in
        let count = event_count (P.lookup s.stats pid) latency_ns in
        record s {
          stats = record_latency P pid latency_ns s.stats;
          events = R.submit b (fill env entry_ts ret count old);
          log =
              s.log
              ++ record {
                format = "fexit: pid=%u latency=%llu ret=%ld\n";
                args = word pid ∷ word latency_ns ∷ word ret ∷ [];
              }
                ∷ [];
        }
  ]

  unfoldable pub msb_fexit :
      Helpers × ℕ → LatencyState T.Map P.Map R.Buf → ℕ × LatencyState T.Map P.Map R.Buf
  msb_fexit (env, ret) s = elim (T.lookup s.entry_times env.pid_tgid) [
    | none ↦ (0, s)
    | some entry_ts ↦
        let t = report env ret entry_ts s in
        (0, record t { entry_times = T.delete t.entry_times env.pid_tgid })
  ]
