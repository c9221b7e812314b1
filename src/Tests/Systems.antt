-- ===== src/Tests/Systems.antt =====
-- The kprobe example at work, with a ring for two records.
use monsa_ebpf.Loader.{is_zero}
use monsa_ebpf.Base.{if◌then◌else◌}
use monsa_ebpf.Base.{
  ℕ, ◌≤◌, ◌≡◌, refl, arith, some, List, [], ◌∷◌, ◌++◌, replicate, length, map, true, add64,
  ℕ_discrete, All, ap, sym, pos, negsuc,
}
use monsa_ebpf.Kernel.{Helpers, PtRegs, RingBuf}
use monsa_ebpf.Kernel.Memory.{find, memory_map-IsHash}
use monsa_ebpf.Kernel.Slots.{
  Slots, slots_ring, drop_oldest, open_slot, slots_ring-IsRing, slots_ring-IsConsumer,
  slots_ring-HasRoom, stale_of,
}
use monsa_ebpf.Counting.{State}
use monsa_ebpf.Counting.Trace.{occurrences}
use monsa_ebpf.Advanced.Tracing.Kprobe.{KprobeEvent}
use monsa_ebpf.Report.Delivery.{report_of, handle_event}
use monsa_ebpf.System.{
  Programs, IsProducer, System, Action, event, signal, turn, run, start, left, polling, hands_over,
  returns, act, IsPolled,
}
use monsa_ebpf.System.Delivery.{
  AllAllowed, all_records, IsFaithful, print_all, emissions, run_delivers,
}
use monsa_ebpf.System.Counters.{keys}
use monsa_ebpf.System.Liveness.{records_are_printed}
use monsa_ebpf.System.Stopping.{leaves_when_stopped}
use monsa_ebpf.System.Session.{
  programs_of, handler_of, programs_of-IsProducer, counted_session, counted_burst,
}
use monsa_ebpf.System.Counted.{kprobe, source_of, key_of}
use monsa_ebpf.System.Counted.Ranges.{IsInput, IsTyped}
use monsa_ebpf.System.Exit.{EndsBy, exits_by_polls}
use monsa_ebpf.Loader.Plan.{summary}
use monsa_ebpf.Loader.Advanced.{attach_and_poll_checked}
use monsa_ebpf.Tests.Loaders.{answers, all}
use monsa_ebpf.Tests.{env_at, other_at, words}
use monsa_ebpf.Tests.Reports.{regs, old_kprobe, old_bytes}

abbrev two_slots : RingBuf KprobeEvent
two_slots = slots_ring 2 old_kprobe

-- One process has called five times before.
abbrev at_start : State (List (ℕ × ℕ)) (Slots KprobeEvent)
at_start = record { counts = (7, 5) ∷ []; events = record { items = []; open_count = 0 }; log = [] }

abbrev old_typed : KprobeEvent
old_typed = record old_kprobe { pid = 7; comm = replicate 16 65; count = 5 }

-- Two calls of different processes, the first while the loader is about to poll and the second in the
-- poll, which hands over both.
abbrev two_calls : List (Action (Helpers × PtRegs))
two_calls =
    event (env_at 1, regs)
    ∷ turn hands_over
    ∷ turn hands_over
    ∷ event (other_at 2, regs)
    ∷ turn hands_over
    ∷ turn (returns (pos 2))
    ∷ []

in_range : AllAllowed (IsInput kprobe) two_calls
in_range = (
  (
    record { time = omega arith; cgroup = omega arith; cpu = omega arith; name = refl },
    (omega arith, omega arith, omega arith),
  ),
  (
    (
      record { time = omega arith; cgroup = omega arith; cpu = omega arith; name = refl },
      (omega arith, omega arith, omega arith),
    ),
    tt,
  ),
)

sized :
    (b b' : Slots KprobeEvent) (old : KprobeEvent)
    → open_slot 2 old_kprobe b ≡ some (b', old)
    → length old.func_name ≡ 32
sized b b' old h = ap (λ (e : KprobeEvent). length e.func_name) (stale_of 2 old_kprobe b b' old h)

abbrev program : Programs KprobeEvent
program = programs_of kprobe words two_slots drop_oldest

abbrev program-IsProducer : IsProducer program (IsInput kprobe) (IsTyped kprobe)
program-IsProducer =
    programs_of-IsProducer kprobe words (memory_map-IsHash ℕ_discrete 4) two_slots
      (slots_ring-IsRing 2 old_kprobe) drop_oldest (slots_ring-IsConsumer 2 old_kprobe) sized
      old_bytes

counted_session_example :
    let t = run program (handler_of kprobe old_bytes) true two_calls (start at_start) in
    (words.lookup t.maps.counts 7
      ≡ some (add64 5 (occurrences ℕ_discrete 7 (keys (key_of kprobe) two_calls))))
    × (t.printed ≡ print_all (report_of (source_of kprobe)) t.handled)
unfolding find ℕ_discrete
counted_session_example =
    counted_session kprobe words (memory_map-IsHash ℕ_discrete 4) two_slots
      (slots_ring-IsRing 2 old_kprobe) drop_oldest (slots_ring-IsConsumer 2 old_kprobe) sized
      old_bytes two_calls at_start 7 5 in_range refl (omega arith) refl

counted_burst_example :
    let t = run program (handler_of kprobe old_bytes) true two_calls (start at_start) in
    (map (λ (e : KprobeEvent). e.pid) (t.handled ++ two_slots.events t.maps.events)
      ≡ keys (key_of kprobe) two_calls)
    × (t.printed ≡ print_all (report_of (source_of kprobe)) t.handled)
counted_burst_example =
    counted_burst kprobe words (memory_map-IsHash ℕ_discrete 4) two_slots
      (slots_ring-IsRing 2 old_kprobe) drop_oldest (slots_ring-IsConsumer 2 old_kprobe) sized
      old_bytes 2 (slots_ring-HasRoom 2 old_kprobe) two_calls at_start in_range refl refl
      (omega arith)

run_delivers_example :
    let t = run program (handler_of kprobe old_bytes) true two_calls (start at_start) in
    (all_records program t
      ≡ all_records program (start at_start)
        ++ emissions program (handler_of kprobe old_bytes) true two_calls (start at_start))
    × All (IsTyped kprobe) (all_records program t)
    × IsFaithful (handler_of kprobe old_bytes) t
run_delivers_example =
    run_delivers program (handler_of kprobe old_bytes) true (IsInput kprobe) (IsTyped kprobe)
      program-IsProducer two_calls (start at_start) in_range tt refl

-- From a state with one record in the ring, of an execve of process 7; a poll hands it over.
abbrev one_unread : System KprobeEvent program.Maps
one_unread = start (record at_start { events = record { items = old_typed ∷ []; open_count = 0 } })

abbrev one_poll : List (Action (Helpers × PtRegs))
one_poll = turn hands_over ∷ turn hands_over ∷ turn (returns (pos 1)) ∷ turn hands_over ∷ []

one_poll-IsPolled : IsPolled program (handler_of kprobe old_bytes) true one_poll one_unread
unfolding act drop_oldest handle_event
one_poll-IsPolled = (tt, (tt, ((refl, refl), (tt, tt))))

records_are_printed_example :
    let t = run program (handler_of kprobe old_bytes) true one_poll one_unread in
    (later : List KprobeEvent) × (t.handled ≡ (old_typed ∷ []) ++ later)
    × (t.printed ≡ print_all (handler_of kprobe old_bytes) ((old_typed ∷ []) ++ later))
records_are_printed_example =
    records_are_printed program (handler_of kprobe old_bytes) true (IsInput kprobe) (IsTyped kprobe)
      program-IsProducer one_poll one_unread tt (omega arith) refl one_poll-IsPolled tt refl tt
      (omega arith)

-- Stopped in a poll with one record in the ring.
abbrev stopped : System KprobeEvent program.Maps
stopped = record one_unread { stop = true; place = polling 0 }

abbrev three_turns : List (Action (Helpers × PtRegs))
three_turns = turn hands_over ∷ turn (returns (pos 1)) ∷ turn hands_over ∷ []

three_turns-IsPolled : IsPolled program (handler_of kprobe old_bytes) true three_turns stopped
unfolding act drop_oldest handle_event
three_turns-IsPolled = (tt, ((refl, refl), (tt, tt)))

nothing_submitted :
    length
      (all_records program (run program (handler_of kprobe old_bytes) true three_turns stopped))
    ≤ 1
unfolding run drop_oldest handle_event
nothing_submitted = omega arith

leaves_when_stopped_example :
    (run program (handler_of kprobe old_bytes) true three_turns stopped).place ≡ left
leaves_when_stopped_example =
    leaves_when_stopped program (handler_of kprobe old_bytes) true (IsInput kprobe) (IsTyped kprobe)
      program-IsProducer three_turns stopped 0 tt three_turns-IsPolled refl nothing_submitted
      (omega arith)

-- A poll without records, then one that the signal interrupts.
abbrev interrupted : List (Action (Helpers × PtRegs))
interrupted =
    turn hands_over
    ∷ turn (returns (pos 0))
    ∷ turn hands_over
    ∷ signal
    ∷ turn (returns (negsuc 3))
    ∷ []

two_polls :
    (run program (handler_of kprobe old_bytes) true interrupted (start at_start)).polls
    ≡ pos 0 ∷ negsuc 3 ∷ []
unfolding run
two_polls = refl

exits_by_polls_example :
    let t = run program (handler_of kprobe old_bytes) true interrupted (start at_start) in
    EndsBy t.polls t.err t.place t.stop
    × (summary
          (attach_and_poll_checked "object" "ring" (answers all (pos 0) (pos 0 ∷ negsuc 3 ∷ [])))
        ≡ record { status = if is_zero t.err then 0 else 1; polls = length t.polls; shows = 0 })
exits_by_polls_example =
    exits_by_polls program (handler_of kprobe old_bytes) "object" "ring"
      (answers all (pos 0) (pos 0 ∷ negsuc 3 ∷ [])) at_start interrupted refl (sym two_polls)
