-- ===== src/Advanced/Tracing/Kretprobe.antt =====
-- S2-advanced/examples/tracing/kretprobe/example_kretprobe.bpf.c: the latency and the result of
-- each `openat`, statistics for each process, and one event for each return.
pub mod Classify
pub mod Probes
pub mod Statistics
pub mod Pairing
use monsa_ebpf.Base.{ℕ, ℤ, pos, negsuc, neg, ◌+◌, ◌*◌, ◌/◌, ◌%◌, Bool, true, false, not, ◌&&◌, ◌||◌}
use monsa_ebpf.Base.{Option, none, some, List, [], ◌∷◌, ◌++◌, length, replicate, ltb, ◌==◌}
use monsa_ebpf.Base.{if◌then◌else◌, ltb_int, leb_int, String}
use monsa_ebpf.Base.{add64, sub64, low32, high32, signed64, to_s32, pattern32, memcpy, c_bytes}
use monsa_ebpf.Kernel.{Helpers, PtRegs, HashMap, RingBuf, Line, word, bytes}
use monsa_ebpf.Counting.{State, emit}

abbrev pub max_errno : ℕ
max_errno = 4095

pub record PidStats : Type 0 where
  pub total_calls : ℕ
  pub success_calls : ℕ
  pub error_calls : ℕ
  pub total_latency_ns : ℕ
  pub min_latency_ns : ℕ
  pub max_latency_ns : ℕ
  pub last_retval : ℤ

pub record KretprobeEvent : Type 0 where
  pub timestamp_ns : ℕ
  pub latency_ns : ℕ
  pub pid : ℕ
  pub tid : ℕ
  pub uid : ℕ
  pub gid : ℕ
  pub cgroup_id : ℕ
  pub comm : List ℕ
  pub retval : ℤ
  pub is_error : ℕ
  pub error_code : ℤ
  pub func_name : List ℕ

-- `ret < 0 && ret >= -MAX_ERRNO`
unfoldable pub is_error_retval : ℤ → ℕ
is_error_retval ret = if ltb_int ret (pos 0) && leb_int (neg (pos max_errno)) ret then 1 else 0

-- `err_code` after the classification.
unfoldable pub error_code_of : ℤ → ℤ
unfolding is_error_retval
error_code_of retval = if is_error_retval retval == 0 then pos 0 else to_s32 (neg retval)

abbrev pub zero_stats : PidStats
zero_stats = record {
  total_calls = 0;
  success_calls = 0;
  error_calls = 0;
  total_latency_ns = 0;
  min_latency_ns = 0;
  max_latency_ns = 0;
  last_retval = pos 0;
}

-- The stores through `stats`: the counters, then the latency if it is not zero.
unfoldable pub tally_calls : ℤ → PidStats → PidStats
tally_calls retval st =
    if is_error_retval retval == 0
    then record st {
      total_calls = add64 st.total_calls 1;
      success_calls = add64 st.success_calls 1;
    }
    else record st { total_calls = add64 st.total_calls 1; error_calls = add64 st.error_calls 1 }

unfoldable pub tally_latency : ℕ → PidStats → PidStats
tally_latency latency st =
    if ltb 0 latency
    then record st {
      total_latency_ns = add64 st.total_latency_ns latency;
      min_latency_ns =
          if st.min_latency_ns == 0 || ltb latency st.min_latency_ns
          then latency
          else st.min_latency_ns;
      max_latency_ns = if ltb st.max_latency_ns latency then latency else st.max_latency_ns;
    }
    else st

unfoldable pub tally : ℕ → ℤ → PidStats → PidStats
tally latency retval st = record (tally_latency latency (tally_calls retval st)) {
  last_retval = retval;
}

-- The maps of the program, with the ring and the trace log.
pub record KretState (T P B : Type 0) : Type 0 where
  pub entry_times : T
  pub pid_statistics : P
  pub events : B
  pub log : List Line

unfoldable pub fill : Helpers → ℕ → ℤ → KretprobeEvent → KretprobeEvent
fill env latency retval evt = record {
  timestamp_ns = env.ktime_ns;
  latency_ns = latency;
  pid = high32 env.pid_tgid;
  tid = low32 env.pid_tgid;
  uid = low32 env.uid_gid;
  gid = high32 env.uid_gid;
  cgroup_id = env.cgroup_id;
  comm = env.comm;
  retval = retval;
  is_error = is_error_retval retval;
  error_code = error_code_of retval;
  func_name = memcpy evt.func_name (c_bytes "__x64_sys_openat");
}

-- The log line after the submit; `rc` is the pattern of `retval`.
unfoldable pub lines : ℕ → ℕ → KretprobeEvent → List Line
lines latency rc evt =
    if evt.is_error == 0
    then record {
      format = "kretprobe[openat]: pid=%u SUCCESS retval=%lld latency_us=%llu\n";
      args = word evt.pid ∷ word rc ∷ word (latency / 1000) ∷ [];
    }
      ∷ []
    else record {
      format = "kretprobe[openat]: pid=%u ERROR retval=%lld errno=%d latency_us=%llu\n";
      args = word evt.pid ∷ word rc ∷ word (pattern32 evt.error_code) ∷ word (latency / 1000) ∷ [];
    }
      ∷ []

-- The latency and the map after the entry time is taken out; zero if there is none.
unfoldable pub take_latency : (T : HashMap ℕ ℕ) → Helpers → T.Map → T.Map × ℕ
take_latency T env m = elim (T.lookup m env.pid_tgid) [
  | none ↦ (m, 0)
  | some entry_ts ↦ (T.delete m env.pid_tgid, sub64 env.ktime_ns entry_ts)
]

-- A missing entry is inserted first, and looked up again.
unfoldable pub update_stats : (P : HashMap ℕ PidStats) → ℕ → ℕ → ℤ → P.Map → P.Map
update_stats P pid latency retval m = elim (P.lookup m pid) [
  | some st ↦ P.store m pid (tally latency retval st)
  | none ↦
      let m' = P.update m pid zero_stats in
      elim (P.lookup m' pid) [ some st ↦ P.store m' pid (tally latency retval st) | none ↦ m' ]
]

module _ (T : HashMap ℕ ℕ) (P : HashMap ℕ PidStats) (R : RingBuf KretprobeEvent) where
  unfoldable pub msb_kprobe_openat_entry :
      Helpers → KretState T.Map P.Map R.Buf → ℕ × KretState T.Map P.Map R.Buf
  msb_kprobe_openat_entry env s =
      (0, record s { entry_times = T.update s.entry_times env.pid_tgid env.ktime_ns })

  unfoldable pub msb_kretprobe_openat_exit :
      Helpers × PtRegs → KretState T.Map P.Map R.Buf → ℕ × KretState T.Map P.Map R.Buf
  msb_kretprobe_openat_exit (env, ctx) s =
      let retval = signed64 ctx.rc in
      let (times, latency) = take_latency T env s.entry_times in
      let statistics = update_stats P (high32 env.pid_tgid) latency retval s.pid_statistics in
      let sent : State P.Map R.Buf =
        emit R (fill env latency retval) (lines latency ctx.rc)
          (record { counts = statistics; events = s.events; log = s.log }) in
      (
        0,
        record {
          entry_times = times;
          pid_statistics = sent.counts;
          events = sent.events;
          log = sent.log;
        },
      )
