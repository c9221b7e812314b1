-- ===== src/Tests/Sessions.antt =====
-- The kretprobe and fentry_fexit examples at work, with rings for two records and for one.
use monsa_ebpf.Base.{
  ℕ, ◌≡◌, ◌<◌, ◌^◌, refl, arith, ap, some, List, [], ◌∷◌, ◌++◌, map, false, length, true, pos,
  ℕ_discrete,
}
use mathlib.Core.Option.{none-ne-some}
use monsa_ebpf.Kernel.{RingBuf}
use monsa_ebpf.Kernel.Memory.{find, memory_map-IsHash}
use monsa_ebpf.Kernel.Slots.{
  Slots, slots_ring, drop_oldest, open_slot, slots_ring-IsRing, slots_ring-IsConsumer, stale_of,
}
use monsa_ebpf.Advanced.Tracing.Kretprobe.{PidStats, KretprobeEvent, KretState}
use monsa_ebpf.Advanced.Tracing.Kretprobe.Probes.{Probe, enter, leave}
use monsa_ebpf.Advanced.Tracing.Kretprobe.Statistics.{AllSound}
use monsa_ebpf.Report.Records.Probes.{kretprobe_report}
use monsa_ebpf.System.{Action, event, signal, turn, run, start, hands_over, returns}
use monsa_ebpf.System.Delivery.{AllAllowed, print_all}
use monsa_ebpf.System.Counted.Ranges.{IsHelpers}
use monsa_ebpf.System.Openat.Calls.{AreReports, returned, kret_programs}
use monsa_ebpf.System.Openat.Ranges.{IsProbe}
use monsa_ebpf.System.Openat.{kret_handler, openat_session}
use monsa_ebpf.Tests.{env_at, other_at, words}
use monsa_ebpf.Tests.Tracing.{old_kret, regs, pid_map}
use monsa_ebpf.Tests.Reports.{old_bytes}
use monsa_ebpf.Advanced.Latency.{LatencyStats, LatencyState}
use monsa_ebpf.Advanced.Latency.Summary.{record_all}
use monsa_ebpf.Advanced.Tracing.FentryFexit.{FentryFexitEvent}
use monsa_ebpf.Advanced.Tracing.FentryFexit.Ledger
use monsa_ebpf.System.Ledger.{open_programs, fexit_handler, fexit_session}
use monsa_ebpf.Tests.Latencies.{stats_map, thread, seven, old_fentry}

abbrev two_slots : RingBuf KretprobeEvent
two_slots = slots_ring 2 old_kret

abbrev idle : KretState (List (ℕ × ℕ)) (List (ℕ × PidStats)) (Slots KretprobeEvent)
idle = record {
  entry_times = [];
  pid_statistics = [];
  events = record { items = []; open_count = 0 };
  log = [];
}

-- Two calls that fail overlap; the record of the first is handed over before the second ends.
abbrev two_calls : List (Action Probe)
two_calls =
    event (enter (env_at 100))
    ∷ event (enter (other_at 150))
    ∷ event (leave (other_at 170) regs)
    ∷ turn hands_over
    ∷ turn hands_over
    ∷ event (leave (env_at 350) regs)
    ∷ turn (returns (pos 1))
    ∷ signal
    ∷ turn hands_over
    ∷ []

env_at-IsHelpers : (now : ℕ) → now < 2 ^ 64 → IsHelpers (env_at now)
env_at-IsHelpers now h = record { time = h; cgroup = omega arith; cpu = omega arith; name = refl }

other_at-IsHelpers : (now : ℕ) → now < 2 ^ 64 → IsHelpers (other_at now)
other_at-IsHelpers now h = record { time = h; cgroup = omega arith; cpu = omega arith; name = refl }

two_calls-AllAllowed : AllAllowed IsProbe two_calls
two_calls-AllAllowed = (
  env_at-IsHelpers 100 (omega arith),
  (
    other_at-IsHelpers 150 (omega arith),
    (
      (other_at-IsHelpers 170 (omega arith), omega arith),
      ((env_at-IsHelpers 350 (omega arith), omega arith), tt),
    ),
  ),
)

sized :
    (b b' : Slots KretprobeEvent) (old : KretprobeEvent)
    → open_slot 2 old_kret b ≡ some (b', old)
    → length old.func_name ≡ 32
sized b b' old h = ap (λ (e : KretprobeEvent). length e.func_name) (stale_of 2 old_kret b b' old h)

none_yet : AllSound pid_map []
unfolding find
none_yet pid st e = absurd (none-ne-some _ e)

openat_session_example :
    let t =
      run
        (kret_programs words pid_map two_slots drop_oldest)
        (kret_handler old_bytes)
        true
        two_calls
        (start idle) in
    (t.printed ≡ print_all kretprobe_report t.handled)
    × AreReports (t.handled ++ two_slots.events t.maps.events) (returned two_calls)
    × AllSound pid_map t.maps.pid_statistics
openat_session_example =
    openat_session words pid_map (memory_map-IsHash ℕ_discrete 4) two_slots
      (slots_ring-IsRing 2 old_kret) drop_oldest (slots_ring-IsConsumer 2 old_kret) sized old_bytes
      two_calls idle two_calls-AllAllowed refl none_yet

abbrev one_slot : RingBuf FentryFexitEvent
one_slot = slots_ring 1 old_fentry

-- Thread 9 of process 7 has entered at 100.
abbrev entered : LatencyState (List (ℕ × ℕ)) (List (ℕ × LatencyStats)) (Slots FentryFexitEvent)
entered = record {
  entry_times = (thread, 100) ∷ [];
  stats = (7, seven) ∷ [];
  events = record { items = []; open_count = 0 };
  log = [];
}

-- Two returns; the second finds the ring full, and the record of the first is handed over after it.
abbrev opens : List (Action Ledger.OpenProbe)
opens =
    event (Ledger.leave (env_at 150, 3))
    ∷ event (Ledger.enter (other_at 160, 0))
    ∷ turn hands_over
    ∷ event (Ledger.leave (other_at 190, 3))
    ∷ turn hands_over
    ∷ turn (returns (pos 1))
    ∷ []

fexit_session_example :
    let t =
      run
        (open_programs words stats_map one_slot drop_oldest)
        (fexit_handler old_bytes)
        false
        opens
        (start entered) in
    (t.maps.stats
      ≡ record_all stats_map
          (map Ledger.brief (t.handled ++ one_slot.events t.maps.events))
          ((7, seven) ∷ []))
    × (t.printed ≡ print_all (fexit_handler old_bytes) t.handled)
fexit_session_example =
    fexit_session words stats_map one_slot (slots_ring-IsRing 1 old_fentry) drop_oldest
      (slots_ring-IsConsumer 1 old_fentry) old_bytes opens entered refl
