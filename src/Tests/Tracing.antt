-- ===== src/Tests/Tracing.antt =====
-- The programs of S2-advanced/examples/tracing, userspace and security on concrete runs.
use monsa_ebpf.Base.{ℕ, ◌+◌, ◌-◌, ◌*◌, ◌++◌, ◌^◌, ◌≡◌, refl, arith, none, List, [], ◌∷◌, replicate}
use monsa_ebpf.Base.{ℕ_discrete, pos, high32}
use monsa_ebpf.Kernel.{PtRegs, HashMap}
use monsa_ebpf.Kernel.Memory.{
  find, assign, remove, room, put, has_slot, take_slot, commit, memory_map, memory_map-IsHash,
  memory_ring, memory_ring-IsRing, Ring,
}
use monsa_ebpf.Counting.{run, emit}
use monsa_ebpf.Tests.{env_at, other_at, words, ring_of}
use monsa_ebpf.Advanced.Tracing.Kretprobe.{
  PidStats, KretprobeEvent, KretState, msb_kprobe_openat_entry, msb_kretprobe_openat_exit,
}
use monsa_ebpf.Advanced.Tracing.Kretprobe.Probes.{Probe, enter, leave, kret_step}
use monsa_ebpf.Advanced.Tracing.Kretprobe.Pairing.{latency_of_pair}

abbrev pub regs : PtRegs
regs = record { parm1 = 1; parm2 = 2; parm3 = 3; rc = 2 ^ 64 - 2 }

abbrev pub old_kret : KretprobeEvent
old_kret = record {
  timestamp_ns = 0;
  latency_ns = 0;
  pid = 0;
  tid = 0;
  uid = 0;
  gid = 0;
  cgroup_id = 0;
  comm = [];
  retval = pos 0;
  is_error = 0;
  error_code = pos 0;
  func_name = replicate 32 255;
}

abbrev pub pid_map : HashMap ℕ PidStats
pid_map = memory_map ℕ_discrete 4

abbrev kret_state : KretState (List (ℕ × ℕ)) (List (ℕ × PidStats)) (Ring KretprobeEvent)
kret_state = record { entry_times = []; pid_statistics = []; events = ring_of 2 old_kret; log = [] }

abbrev probes : List Probe
probes = enter (env_at 100) ∷ enter (other_at 150) ∷ leave (other_at 170) regs ∷ []

latency_of_pair_example :
    let R = memory_ring KretprobeEvent in
    let s' = run (kret_step words pid_map R) probes kret_state in
    let t = (kret_step words pid_map R (leave (env_at 350) regs) s').1 in
    (evt : KretprobeEvent) × (R.events t.events ≡ R.events s'.events ++ evt ∷ [])
    × (evt.latency_ns ≡ 250)
    × (words.lookup t.entry_times (7 * 2 ^ 32 + 9) ≡ none)
unfolding find ℕ_discrete high32 room take_slot has_slot put assign remove commit kret_step run
    msb_kretprobe_openat_exit emit msb_kprobe_openat_entry
latency_of_pair_example =
    latency_of_pair words (memory_map-IsHash ℕ_discrete 4) pid_map (memory_ring KretprobeEvent)
      (memory_ring-IsRing KretprobeEvent) (env_at 100) (env_at 350) regs
      (enter (other_at 150) ∷ leave (other_at 170) regs ∷ []) kret_state _ _ refl
      (omega arith, (omega arith, tt)) refl (omega arith) (omega arith) refl
