-- ===== src/Tests/Reports.antt =====
-- Records from the ring to the output, and CPUs that count one key together.
use monsa_ebpf.Base.{
  inl, ◌*◌, inr, length, All, ℕ, ◌+◌, ◌^◌, ◌++◌, ◌≡◌, ◌≤◌, refl, arith, some, List, [], ◌∷◌,
  replicate, get_elem?, high32, ℕ_discrete, ◌==◌, if◌then◌else◌, add64, Option, none,
}
use monsa_ebpf.Kernel.{PtRegs}
use monsa_ebpf.Kernel.Memory.{
  find, room, has_slot, take_slot, memory_map-IsHash, memory_ring, memory_ring-IsRing, Ring,
}
use monsa_ebpf.Counting.{State}
use monsa_ebpf.Counting.Race.{Race, idle, interleave}
use monsa_ebpf.Counting.Race.Exact.{interleave_exact}
use monsa_ebpf.Counting.Race.Lost.{lost_updates, IsAmong, IsDistinct}
use monsa_ebpf.Tests.{env_at, words, ring_of}
use monsa_ebpf.Advanced.Tracing.Kprobe.{KprobeEvent, msb_kprobe_execve}
use monsa_ebpf.Advanced.Cgroup.CgroupBpf.{CgroupBpfEvent}
use monsa_ebpf.Loader.{kprobe, cgroup_bpf}
use monsa_ebpf.Report.Timestamp.{format_timestamp, number, IsDigit, format_timestamp_fits}
use monsa_ebpf.Report.Print.{word}
use monsa_ebpf.Report.Wire.{submitted}
use monsa_ebpf.Report.Records.Probes.{kprobe_wire, kprobe_written}
use monsa_ebpf.Report.Records.Cgroup.{cgroup_bpf_wire, cgroup_bpf_written}
use monsa_ebpf.Report.Delivery.{advanced, handle_event, handle_event-submitted, report_of}
use monsa_ebpf.Report.Execve.{execve_printed}
use monsa_ebpf.Report.Maps.{walk, visit, calls_line}
use monsa_ebpf.Report.Maps.Walk.{IsOrder, head, behind_key, reached, concat_map, walk-reached}

format_timestamp_fits_example :
    (whole : List ℕ) × (fraction : List ℕ) × (format_timestamp 1000000005 32
      ≡ whole ++ 46 ∷ fraction)
    × All IsDigit whole
    × All IsDigit fraction
    × (1 ≤ length whole)
    × (length whole ≤ 11)
    × (length fraction ≡ 9)
    × (number 0 whole * 1000000000 + number 0 fraction ≡ 1000000005)
format_timestamp_fits_example = format_timestamp_fits 1000000005 (omega arith)

abbrev load_event : CgroupBpfEvent
load_event = record {
  timestamp_ns = 5;
  cgroup_id = 2 ^ 40;
  pid = 7;
  comm = replicate 16 65;
  count = 3;
}

-- The four bytes between the name's end and the counter hold 255.
abbrev pub old_bytes : ℕ → ℕ
old_bytes n = 255

handle_event-submitted_example :
    handle_event
      (advanced cgroup_bpf)
      (submitted old_bytes cgroup_bpf_written (cgroup_bpf_wire.stored load_event))
    ≡ report_of (advanced cgroup_bpf) load_event
handle_event-submitted_example =
    handle_event-submitted (advanced cgroup_bpf) old_bytes load_event (omega arith)

abbrev pub regs : PtRegs
regs = record { parm1 = 1; parm2 = 2; parm3 = 3; rc = 0 }

abbrev pub old_kprobe : KprobeEvent
old_kprobe = record {
  timestamp_ns = 0;
  pid = 0;
  tid = 0;
  ppid = 0;
  uid = 0;
  gid = 0;
  cgroup_id = 0;
  comm = [];
  arg0 = 0;
  arg1 = 0;
  arg2 = 0;
  count = 0;
  func_name = replicate 32 255;
}

abbrev kprobe_state : State (List (ℕ × ℕ)) (Ring KprobeEvent)
kprobe_state = record { counts = (7, 5) ∷ []; events = ring_of 1 old_kprobe; log = [] }

execve_printed_example :
    let R = memory_ring KprobeEvent in
    let t = (msb_kprobe_execve words R (env_at 1, regs) kprobe_state).1 in
    (evt : KprobeEvent) × (R.events t.events ≡ evt ∷ [])
    × (words.lookup t.counts 7 ≡ some evt.count)
    × (let printed =
          handle_event
            (advanced kprobe)
            (submitted old_bytes kprobe_written (kprobe_wire.stored evt)) in
        (get_elem? printed 3 ≡ some (record { format = "  PID:        %u\n"; args = word 7 ∷ [] }))
        × (get_elem? printed 13
            ≡ some (record { format = "  Call Count: %llu\n"; args = word evt.count ∷ [] })))
unfolding find ℕ_discrete high32 room take_slot has_slot
execve_printed_example =
    execve_printed words (memory_map-IsHash ℕ_discrete 4) (memory_ring KprobeEvent)
      (memory_ring-IsRing KprobeEvent) (env_at 1) regs kprobe_state
      (record { items = []; open_count = 1; limit = 1; stale = old_kprobe }) old_kprobe old_bytes
      (record {
        time = omega arith;
        task = omega arith;
        cgroup = omega arith;
        name = refl;
        first = omega arith;
        second = omega arith;
        third = omega arith;
      })
      refl refl refl

abbrev five : Race
five = record { element = 0; value = some 5; phase = λ c. idle; completed = 0 }

-- CPU 0 looks, CPU 1 looks and adds, CPU 0 adds.
interleave_exact_example :
    (k : ℕ) × ((interleave (0 ∷ 1 ∷ 1 ∷ 0 ∷ []) five).completed ≡ 0 + k)
    × ((interleave (0 ∷ 1 ∷ 1 ∷ 0 ∷ []) five).value ≡ some (add64 5 k))
interleave_exact_example =
    interleave_exact (0 ∷ 1 ∷ 1 ∷ 0 ∷ []) five 5 (record { here = λ c. inl refl }) refl
      (omega arith)

-- Three CPUs look in one order and insert in another.
abbrev no_entry : Race
no_entry = record { element = 0; value = none; phase = λ c. idle; completed = 0 }

looks-IsDistinct : IsDistinct (0 ∷ 1 ∷ 2 ∷ [])
looks-IsDistinct = (λ h. ground arith, (λ h. ground arith, (λ h. h, tt)))

inserts-IsDistinct : IsDistinct (2 ∷ 0 ∷ 1 ∷ [])
inserts-IsDistinct = (λ h. ground arith, (λ h. ground arith, (λ h. h, tt)))

inserts-IsAmong : (d : ℕ) → IsAmong d (2 ∷ 0 ∷ 1 ∷ []) → IsAmong d (0 ∷ 1 ∷ 2 ∷ [])
inserts-IsAmong d (inl e) = inr (inr (inl e))
inserts-IsAmong d (inr (inl e)) = inl e
inserts-IsAmong d (inr (inr (inl e))) = inr (inl e)
inserts-IsAmong d (inr (inr (inr h))) = elim h [ ]

lost_updates_example :
    let t = interleave ((0 ∷ 1 ∷ 2 ∷ []) ++ 2 ∷ 0 ∷ 1 ∷ []) no_entry in
    (t.completed ≡ 3) × (t.value ≡ some 1)
lost_updates_example =
    lost_updates (0 ∷ 1 ∷ 2 ∷ []) 2 (0 ∷ 1 ∷ []) no_entry looks-IsDistinct inserts-IsDistinct
      inserts-IsAmong refl (λ d h. refl)

-- Keys 4, 0 and 9 in the order of the buckets: the walk misses key 4.
abbrev buckets : List ℕ
buckets = 4 ∷ 0 ∷ 9 ∷ []

abbrev next_bucket : ℕ → Option ℕ
next_bucket k =
    if k == 4 then some 0 else if k == 0 then some 9 else if k == 9 then none else some 4

next_bucket-behind :
    (before : List ℕ) (k : ℕ) (after : List ℕ)
    → buckets ≡ before ++ k ∷ after
    → next_bucket k ≡ head after
next_bucket-behind [] k after e = ground arith
next_bucket-behind (a ∷ []) k after e = ground arith
next_bucket-behind (a ∷ b ∷ []) k after e = ground arith
next_bucket-behind (a ∷ b ∷ c ∷ []) k after e = cc
next_bucket-behind (a ∷ b ∷ c ∷ d ∷ before) k after e = cc

next_bucket-absent : (k : ℕ) → behind_key k buckets ≡ none → next_bucket k ≡ head buckets
unfolding behind_key
next_bucket-absent k e = ground arith

abbrev next_bucket-IsOrder : IsOrder next_bucket buckets
next_bucket-IsOrder = record { behind = next_bucket-behind; absent = next_bucket-absent }

walk-reached_example :
    walk next_bucket (visit (λ k. some k) calls_line) 4 0
    ≡ some (concat_map (visit (λ k. some k) calls_line) (reached buckets))
walk-reached_example =
    walk-reached next_bucket (visit (λ k. some k) calls_line) buckets next_bucket-IsOrder 4
      (omega arith)

-- One line is printed, of key 9.
walk_misses_four :
    walk next_bucket (visit (λ k. some k) calls_line) 4 0 ≡ some (calls_line 9 9 ∷ [])
unfolding walk visit
walk_misses_four = refl
