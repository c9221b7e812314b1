-- ===== src/Tests/Latencies.antt =====
-- example_fentry_fexit.bpf.c and example_uretprobe.bpf.c of S2-advanced/examples on concrete runs.
use monsa_ebpf.Base.{add64}
use monsa_ebpf.Base.{◌++◌}
use monsa_ebpf.Base.{ℕ, ◌+◌, ◌*◌, ◌^◌, ◌≡◌, refl, arith, some, List, [], ◌∷◌}
use monsa_ebpf.Base.{map, ℕ_discrete, pos}
use monsa_ebpf.Kernel.{PtRegs, HashMap}
use monsa_ebpf.Kernel.Memory.{
  find, room, memory_map, memory_map-IsHash, memory_ring, memory_ring-IsRing, Ring,
}
use monsa_ebpf.Counting.{run}
use monsa_ebpf.Advanced.Tracing.FentryFexit.Ledger
use monsa_ebpf.Advanced.Tracing.FentryFexit.Ledger.{open_step}
use monsa_ebpf.Advanced.Tracing.FentryFexit.Numbering.{numbers_of, consecutive, fexit_numbers}
use monsa_ebpf.Advanced.Userspace.Uretprobe.Ledger as Calls
use monsa_ebpf.Advanced.Userspace.Uretprobe.Ledger.{call_step, stats_of_uretprobe_events}
use monsa_ebpf.Tests.{env_at, other_at, words, ring_of}
use monsa_ebpf.Advanced.Latency.{LatencyStats, LatencyState}
use monsa_ebpf.Advanced.Latency.Summary.{
  Summarises, latencies_of, record_all, record_all-Summarises,
}
use monsa_ebpf.Advanced.Tracing.FentryFexit.{FentryFexitEvent}
use monsa_ebpf.Advanced.Userspace.Uretprobe.{UretprobeEvent}

abbrev pub stats_map : HashMap ℕ LatencyStats
stats_map = memory_map ℕ_discrete 2

record_all-Summarises_example :
    (st : LatencyStats) × (stats_map.lookup
        (record_all stats_map ((7, 30) ∷ (8, 5) ∷ (7, 10) ∷ []) [])
        7
      ≡ some st)
    × Summarises (30 ∷ latencies_of 7 ((8, 5) ∷ (7, 10) ∷ [])) st
unfolding find room
record_all-Summarises_example =
    record_all-Summarises stats_map (memory_map-IsHash ℕ_discrete 2) ((8, 5) ∷ (7, 10) ∷ []) [] 7 30
      refl refl (omega arith)

abbrev pub thread : ℕ
thread = 7 * 2 ^ 32 + 9

abbrev pub seven : LatencyStats
seven = record { count = 3; total_ns = 60; min_ns = 10; max_ns = 30 }

abbrev state_of :
    {E : Type 0} → ℕ → E → LatencyState (List (ℕ × ℕ)) (List (ℕ × LatencyStats)) (Ring E)
state_of limit old = record {
  entry_times = (thread, 100) ∷ [];
  stats = (7, seven) ∷ [];
  events = ring_of limit old;
  log = [];
}

abbrev pub old_fentry : FentryFexitEvent
old_fentry = record {
  timestamp_ns = 0;
  pid = 0;
  tid = 0;
  uid = 0;
  gid = 0;
  cgroup_id = 0;
  comm = [];
  entry_ts = 0;
  exit_ts = 0;
  latency_ns = 0;
  retval = 0;
  count = 0;
}

-- Two calls of process 7, whose count is three.
abbrev opens : List Ledger.OpenProbe
opens =
    Ledger.leave (env_at 150, 3)
    ∷ Ledger.enter (other_at 160, 0)
    ∷ Ledger.enter (env_at 170, 0)
    ∷ Ledger.leave (env_at 190, 3)
    ∷ []

fexit_numbers_example :
    let t =
      run
        (open_step words stats_map (memory_ring FentryFexitEvent))
        opens
        (state_of 2 old_fentry) in
    (new : List FentryFexitEvent) × (n : ℕ) × (last : LatencyStats) × (t.events.items ≡ [] ++ new)
    × (numbers_of 7 new ≡ consecutive 3 2 n)
    × (stats_map.lookup t.stats 7 ≡ some last)
    × (last.count ≡ add64 3 n)
unfolding find ℕ_discrete
fexit_numbers_example =
    fexit_numbers words stats_map (memory_ring FentryFexitEvent)
      (memory_ring-IsRing FentryFexitEvent) (memory_map-IsHash ℕ_discrete 2) opens
      (state_of 2 old_fentry) 7 seven (omega arith) refl

abbrev regs : PtRegs
regs = record { parm1 = 0; parm2 = 0; parm3 = 0; rc = 5 }

abbrev old_uret : UretprobeEvent
old_uret = record {
  timestamp_ns = 0;
  pid = 0;
  tid = 0;
  uid = 0;
  gid = 0;
  entry_ts = 0;
  exit_ts = 0;
  latency_ns = 0;
  retval = pos 0;
  comm = [];
}

abbrev user_calls : List Calls.CallProbe
user_calls = Calls.leave (env_at 150, regs) ∷ Calls.enter (other_at 160) ∷ []

stats_of_uretprobe_events_example :
    let t =
      run
        (call_step words stats_map (memory_ring UretprobeEvent))
        user_calls
        (state_of 1 old_uret) in
    (calls : List (ℕ × ℕ)) × (t.stats ≡ record_all stats_map calls ((7, seven) ∷ []))
    × (map Calls.brief t.events.items ≡ calls)
stats_of_uretprobe_events_example =
    stats_of_uretprobe_events words stats_map (memory_ring UretprobeEvent)
      (memory_ring-IsRing UretprobeEvent) user_calls (state_of 1 old_uret)
