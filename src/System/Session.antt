-- ===== src/System/Session.antt =====
-- An example at work, program and loader together.
use monsa_ebpf.Base.{
  ℕ, ◌≤◌, ◌<◌, ◌^◌, ◌≡◌, refl, ap, ◌∙◌, some, List, [], ◌∷◌, ◌++◌, arith, add64, All, All-first,
  map, length, ℕ_discrete,
}
use monsa_ebpf.Kernel.{Helpers, HashMap, IsHash, RingBuf, IsRing, IsConsumer, HasRoom}
use monsa_ebpf.Counting.{State, hit, counted_step}
use monsa_ebpf.Counting.Trace.{occurrences}
use monsa_ebpf.Counting.Emit.{
  counts-counted_step, emit-appends, events-counted_step, pending-counted_step,
}
use monsa_ebpf.Report.Print.{Line}
use monsa_ebpf.Report.Wire.{submitted}
use monsa_ebpf.Report.Delivery.{EventOf, wire_of, handle_event, handle_event-submitted, report_of}
use monsa_ebpf.Report.Execve.{hit-lt}
use monsa_ebpf.System.{Programs, IsProducer, Action, run, start}
use monsa_ebpf.System.Delivery.{AllAllowed, print_all, run_delivers}
use monsa_ebpf.System.Counters.{keys, lookup-system}
use monsa_ebpf.System.Burst.{burst_is_recorded}
use monsa_ebpf.System.Counted.{
  Counted, source_of, is_checked, ContextOf, key_of, label_of, fill_of, lines_of, program_of,
  program_of-counted_step,
}
use monsa_ebpf.System.Counted.Ranges.{IsInput, IsSized, IsTyped, fill_of-IsTyped, label_of-fill_of}

-- The program, over any map and ring, as it runs under its loader.
abbrev pub programs_of :
    (x : Counted) (H : HashMap ℕ ℕ) (R : RingBuf (EventOf (source_of x)))
    → (R.Buf → R.Buf)
    → Programs (EventOf (source_of x))
programs_of x H R consume = record {
  Maps = State H.Map R.Buf;
  Input = Helpers × ContextOf x;
  fire = λ i s. program_of H x R i s;
  unread = λ s. R.events s.events;
  advance = λ s. record s { events = consume s.events };
}

-- The handler on the bytes of a submitted record, over the bytes that the ring held before.
abbrev pub handler_of : (x : Counted) → (ℕ → ℕ) → EventOf (source_of x) → List Line
handler_of x memory e =
    handle_event (source_of x)
      (submitted memory (wire_of (source_of x)).written ((wire_of (source_of x)).stored e))

module _ (x : Counted) (H : HashMap ℕ ℕ) (L : IsHash H) (R : RingBuf (EventOf (source_of x)))
    (LR : IsRing R) (consume : R.Buf → R.Buf) (C : IsConsumer R consume)
    (sized : (b b' : R.Buf) (old : EventOf (source_of x))
      → R.reserve b ≡ some (b', old)
      → IsSized x old)
    (memory : ℕ → ℕ) where
  fire-appends :
      (i : Helpers × ContextOf x) (s : State H.Map R.Buf)
      → IsInput x i
      → (new : List (EventOf (source_of x))) × (R.events (program_of H x R i s).events
          ≡ R.events s.events ++ new)
        × All (IsTyped x) new
  unfolding counted_step
  fire-appends i s input =
      let count = (hit H s.counts (key_of x i)).1 in
      let (new, appended, typed) =
        emit-appends R (fill_of x i count) (lines_of x i count) LR (IsTyped x)
          (record s { counts = (hit H s.counts (key_of x i)).0 })
          (λ b old e.
            fill_of-IsTyped x i count old input (hit-lt H s.counts (key_of x i))
              (sized s.events b old e)) in
      (
        new,
        ap (λ (t : State H.Map R.Buf). R.events t.events) (program_of-counted_step H x R i s)
            ∙ appended,
        typed,
      )

  pub programs_of-IsProducer : IsProducer (programs_of x H R consume) (IsInput x) (IsTyped x)
  programs_of-IsProducer = record {
    unread-fire = fire-appends;
    unread-advance = λ m e rest h. C.events-consume m.events e rest h;
  }

  fire_one :
      (limit : ℕ) (room : HasRoom R limit) (i : Helpers × ContextOf x) (s : State H.Map R.Buf)
      → IsInput x i
      → R.pending s.events ≡ 0
      → length (R.events s.events) < limit
      → (e : EventOf (source_of x)) × (R.events (program_of H x R i s).events
          ≡ R.events s.events ++ e ∷ [])
        × (label_of x e ≡ key_of x i)
        × (R.pending (program_of H x R i s).events ≡ 0)
  fire_one limit room i s input none_open small =
      let (b, old, e) = room.reserve-succeeds s.events none_open small in
      let same = program_of-counted_step H x R i s in
      (
        fill_of x i (hit H s.counts (key_of x i)).1 old,
        ap (λ (t : State H.Map R.Buf). R.events t.events) same
            ∙ events-counted_step H R _ _ _ s LR b old e,
        label_of-fill_of x i _ old,
        ap (λ (t : State H.Map R.Buf). R.pending t.events) same
            ∙ pending-counted_step H R _ _ _ s LR
            ∙ none_open,
      )

  counts-fire :
      (i : Helpers × ContextOf x) (s : State H.Map R.Buf)
      → (program_of H x R i s).counts ≡ (hit H s.counts (key_of x i)).0
  counts-fire i s =
      ap (λ (t : State H.Map R.Buf). t.counts) (program_of-counted_step H x R i s)
      ∙ counts-counted_step H R _ _ _ s

  print_all-typed :
      (es : List (EventOf (source_of x)))
      → All (IsTyped x) es
      → print_all (handler_of x memory) es ≡ print_all (report_of (source_of x)) es
  print_all-typed [] typed = refl
  print_all-typed (e ∷ es) (fit, typed) =
      rw (handle_event-submitted (source_of x) memory e fit, print_all-typed es typed) refl

  -- One of the eleven examples, from the start of its loader's loop with an empty ring, on any
  -- schedule of runs on values of their types, signals and steps of the loader, whatever its polls
  -- return: a key whose counter stood at the 64-bit value `c` has it at `c` plus the number of its
  -- runs, modulo 2 ^ 64; and the output is the report of the records that the loader took from the
  -- ring.
  pub counted_session :
      (schedule : List (Action (Helpers × ContextOf x))) (s : State H.Map R.Buf) (key c : ℕ)
      → AllAllowed (IsInput x) schedule
      → R.events s.events ≡ []
      → c < 2 ^ 64
      → H.lookup s.counts key ≡ some c
      → let t =
          run (programs_of x H R consume) (handler_of x memory) (is_checked x) schedule (start s) in
        (H.lookup t.maps.counts key
          ≡ some (add64 c (occurrences ℕ_discrete key (keys (key_of x) schedule))))
        × (t.printed ≡ print_all (report_of (source_of x)) t.handled)
  counted_session schedule s key c allowed empty bound h =
      let P = programs_of x H R consume in
      let (appended, typed, faithful) =
        run_delivers P (handler_of x memory) (is_checked x) (IsInput x) (IsTyped x)
          programs_of-IsProducer schedule (start s) allowed (rw empty tt) refl in
      (
        lookup-system P (handler_of x memory) (is_checked x) H (λ (m : State H.Map R.Buf). m.counts)
            (key_of x) counts-fire (λ m. refl) ℕ_discrete L schedule (start s) key c bound h,
        faithful ∙ print_all-typed _ (All-first (IsTyped x) _ _ typed),
      )

  -- With no reservation open in the beginning, and at most as many runs in the schedule as the
  -- empty ring has room for, every run has its record: the records handed over, of which the output
  -- is the report, and those still in the ring hold the keys of the runs, in their order.
  pub counted_burst :
      (limit : ℕ) (room : HasRoom R limit) (schedule : List (Action (Helpers × ContextOf x)))
      (s : State H.Map R.Buf)
      → AllAllowed (IsInput x) schedule
      → R.events s.events ≡ []
      → R.pending s.events ≡ 0
      → length (keys (key_of x) schedule) ≤ limit
      → let t =
          run (programs_of x H R consume) (handler_of x memory) (is_checked x) schedule (start s) in
        (map (label_of x) (t.handled ++ R.events t.maps.events) ≡ keys (key_of x) schedule)
        × (t.printed ≡ print_all (report_of (source_of x)) t.handled)
  counted_burst limit room schedule s allowed empty open_none small =
      let P = programs_of x H R consume in
      let (appended, typed, faithful) =
        run_delivers P (handler_of x memory) (is_checked x) (IsInput x) (IsTyped x)
          programs_of-IsProducer schedule (start s) allowed (rw empty tt) refl in
      (
        burst_is_recorded P (handler_of x memory) (is_checked x) (IsInput x) (IsTyped x)
              programs_of-IsProducer (label_of x) (key_of x)
              (λ (m : State H.Map R.Buf). R.pending m.events ≡ 0) limit (fire_one limit room)
              (λ (m : State H.Map R.Buf) (h : R.pending m.events ≡ 0).
                C.pending-consume m.events ∙ h)
              schedule (start s) allowed open_none
              (omega (arith, small, ap (length {A = EventOf (source_of x)}) empty))
            ∙ rw empty refl,
        faithful ∙ print_all-typed _ (All-first (IsTyped x) _ _ typed),
      )
