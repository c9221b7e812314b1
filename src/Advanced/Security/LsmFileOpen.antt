-- ===== src/Advanced/Security/LsmFileOpen.antt =====
-- S2-advanced/examples/security/lsm/lsm_file_open.bpf.c: one event for each file that is opened,
-- with allow and deny counters for each process.
pub mod Policy
use monsa_ebpf.Base.{
  ℕ, zero, ℤ, pos, negsuc, neg, ◌+◌, ◌*◌, ◌/◌, ◌%◌, Bool, true, false, not, ◌&&◌, ◌||◌,
}
use monsa_ebpf.Base.{Option, none, some, List, [], ◌∷◌, ◌++◌, length, replicate, ltb, ◌==◌}
use monsa_ebpf.Base.{if◌then◌else◌, ltb_int, leb_int, String}
use monsa_ebpf.Base.{add64, sub64, low32, high32, signed64, to_s32, pattern32, memcpy, c_bytes}
use monsa_ebpf.Kernel.{Helpers, PtRegs, HashMap, RingBuf, Line, word, bytes}
use monsa_ebpf.Counting.{State}

abbrev pub path_max : ℕ
path_max = 256

pub record LsmEvent : Type 0 where
  pub timestamp_ns : ℕ
  pub pid : ℕ
  pub tid : ℕ
  pub uid : ℕ
  pub gid : ℕ
  pub cgroup_id : ℕ
  pub comm : List ℕ
  pub path : List ℕ
  pub flags : ℕ
  pub mode : ℕ
  pub decision : ℤ
  pub count : ℕ

pub record LsmStats : Type 0 where
  pub allow_count : ℕ
  pub deny_count : ℕ

-- The stores through `stats`, and the count that the event takes.
unfoldable pub tally : ℤ → LsmStats → LsmStats × ℕ
tally (pos zero) st =
    let st' : LsmStats = record st { allow_count = add64 st.allow_count 1 } in
    (st', st'.allow_count)
tally decision st =
    let st' : LsmStats = record st { deny_count = add64 st.deny_count 1 } in (st', st'.deny_count)

unfoldable pub update_stats : (H : HashMap ℕ LsmStats) → ℕ → ℤ → H.Map → H.Map × ℕ
unfolding tally
update_stats H pid decision m = elim (H.lookup m pid) [
  | none ↦ (H.update m pid (record { allow_count = 1; deny_count = 0 }), 1)
  | some st ↦ (H.store m pid (tally decision st).0, (tally decision st).1)
]

unfoldable pub fill : Helpers → ℤ → ℕ → LsmEvent → LsmEvent
fill env decision count evt = record {
  timestamp_ns = env.ktime_ns;
  pid = high32 env.pid_tgid;
  tid = low32 env.pid_tgid;
  uid = low32 env.uid_gid;
  gid = high32 env.uid_gid;
  cgroup_id = env.cgroup_id;
  comm = env.comm;
  path = memcpy (replicate path_max 0) (c_bytes "unknown");
  flags = 0;
  mode = 0;
  decision = decision;
  count = count;
}

-- The local variable that is returned.
abbrev pub default_decision : ℤ
default_decision = pos 0

-- Without a free record the program returns before it counts.
unfoldable pub msb_lsm_file_open :
    (H : HashMap ℕ LsmStats) (R : RingBuf LsmEvent)
    → Helpers
    → State H.Map R.Buf
    → ℤ × State H.Map R.Buf
msb_lsm_file_open H R env s = elim (R.reserve s.events) [
  | none ↦ (pos 0, s)
  | some (b, old) ↦
      let pid = high32 env.pid_tgid in
      let decision = default_decision in
      let (counts, count) = update_stats H pid decision s.counts in
      (
        decision,
        record s {
          counts = counts;
          events = R.submit b (fill env decision count old);
          log =
              s.log
              ++ record {
                format = "lsm_file_open: pid=%u uid=%u decision=%d\n";
                args = word pid ∷ word (low32 env.uid_gid) ∷ word (pattern32 decision) ∷ [];
              }
                ∷ [];
        },
      )
]
