-- ===== src/System/Ledger.antt =====
-- The fentry_fexit example at work: the statistics of the processes against the output.
use monsa_ebpf.Base.{
  ℕ, ◌≡◌, refl, ap, ◌∙◌, sym, List, [], ◌∷◌, ◌++◌, map, append-nil, append_assoc, All, false,
  high32, sub64, Option-cases, inl, inr,
}
use mathlib.Core.List.{map-append}
use monsa_ebpf.Kernel.{HashMap, RingBuf, IsRing, IsConsumer, Helpers}
use monsa_ebpf.Advanced.Latency.{LatencyStats, LatencyState}
use monsa_ebpf.Advanced.Latency.Summary.{record_all, record_all-append}
use monsa_ebpf.Advanced.Tracing.FentryFexit.{
  FentryFexitEvent, event_count, fill, report, msb_fentry, msb_fexit,
}
use monsa_ebpf.Advanced.Tracing.FentryFexit.Ledger.{
  OpenProbe, enter, leave, open_step, brief, step-Balanced,
}
use monsa_ebpf.Report.Print.{Line}
use monsa_ebpf.Loader.{fentry_fexit}
use monsa_ebpf.Report.Records.Tracing.{fentry_fexit_written, fentry_fexit_wire}
use monsa_ebpf.Report.Wire.{submitted}
use monsa_ebpf.Report.Delivery.{advanced, handle_event}
use monsa_ebpf.System.{Programs, IsProducer, System, Action, event, signal, turn, act, run, start}
use monsa_ebpf.System.Kept.{turn_at-keeps}
use monsa_ebpf.System.Delivery.{AllAllowed, all_records, print_all, turn_at-records, run_delivers}

-- The two programs, over any maps and ring, as they run under their loader.
abbrev pub open_programs :
    (T : HashMap ℕ ℕ) (P : HashMap ℕ LatencyStats) (R : RingBuf FentryFexitEvent)
    → (R.Buf → R.Buf)
    → Programs FentryFexitEvent
open_programs T P R consume = record {
  Maps = LatencyState T.Map P.Map R.Buf;
  Input = OpenProbe;
  fire = λ i s. (open_step T P R i s).1;
  unread = λ s. R.events s.events;
  advance = λ s. record s { events = consume s.events };
}

-- The handler on the bytes of a submitted record, over the bytes that the ring held before.
abbrev pub fexit_handler : (ℕ → ℕ) → FentryFexitEvent → List Line
fexit_handler memory e =
    handle_event (advanced fentry_fexit)
      (submitted memory fentry_fexit_written (fentry_fexit_wire.stored e))

abbrev Any : {A : Type 0} → A → Type 0
Any a = Unit

AllAllowed-Any : {I : Type 0} (schedule : List (Action I)) → AllAllowed Any schedule
AllAllowed-Any [] = tt
AllAllowed-Any (event i ∷ more) = (tt, AllAllowed-Any more)
AllAllowed-Any (signal ∷ more) = AllAllowed-Any more
AllAllowed-Any (turn reply ∷ more) = AllAllowed-Any more

All-Any : {E : Type 0} (es : List E) → All Any es
All-Any [] = tt
All-Any (e ∷ es) = (tt, All-Any es)

module _ (T : HashMap ℕ ℕ) (P : HashMap ℕ LatencyStats) (R : RingBuf FentryFexitEvent)
    (LR : IsRing R) (consume : R.Buf → R.Buf) (C : IsConsumer R consume) (memory : ℕ → ℕ) where
  abbrev Q : Programs FentryFexitEvent
  Q = open_programs T P R consume

  report-appends :
      (env : Helpers) (ret since : ℕ) (s : LatencyState T.Map P.Map R.Buf)
      → (new : List FentryFexitEvent) × (R.events (report T P R env ret since s).events
          ≡ R.events s.events ++ new)
  unfolding report
  report-appends env ret since s = elim (Option-cases (R.reserve s.events)) [
    | inl full ↦ ([], rw (full, report) (sym (append-nil (R.events s.events))))
    | inr ((b, old), free) ↦
        let evt =
          fill env since ret
            (event_count (P.lookup s.stats (high32 env.pid_tgid)) (sub64 env.ktime_ns since)) old in
        (
          evt ∷ [],
          rw (free, report)
              (LR.events-submit b evt
                ∙ ap (λ es. es ++ evt ∷ []) (LR.events-reserve s.events free)),
        )
  ]

  step-appends :
      (i : OpenProbe) (s : LatencyState T.Map P.Map R.Buf)
      → (new : List FentryFexitEvent) × (R.events (open_step T P R i s).1.events
          ≡ R.events s.events ++ new)
  unfolding open_step msb_fentry msb_fexit
  step-appends (enter i) s = ([], sym (append-nil (R.events s.events)))
  step-appends (leave (env, ret)) s = elim (Option-cases (T.lookup s.entry_times env.pid_tgid)) [
    | inl e ↦ ([], rw (e, msb_fexit) (sym (append-nil (R.events s.events))))
    | inr (since, e) ↦ rw (e, msb_fexit) (report-appends env ret since s)
  ]

  pub open_programs-IsProducer : IsProducer Q Any Any
  open_programs-IsProducer = record {
    unread-fire =
        λ i m allowed. let (new, appended) = step-appends i m in (new, appended, All-Any new);
    unread-advance = λ m e rest h. C.events-consume m.events e rest h;
  }

  -- What the records handed over and those in the ring report is what the statistics have taken in.
  abbrev IsAccounted : P.Map → System FentryFexitEvent Q.Maps → Type 0
  IsAccounted first s = s.maps.stats ≡ record_all P (map brief (all_records Q s)) first

  event-IsAccounted :
      (first : P.Map) (i : OpenProbe) (s : System FentryFexitEvent Q.Maps)
      → IsAccounted first s
      → IsAccounted first (act Q (fexit_handler memory) false s (event i))
  unfolding act
  event-IsAccounted first i s h =
      let (calls, stats, events) = step-Balanced T P R LR i s.maps in
      stats
      ∙ ap (record_all P calls) h
      ∙ sym (record_all-append P (map brief (all_records Q s)) calls first)
      ∙ ap (λ cs. record_all P cs first)
          (ap (λ cs. cs ++ calls) (map-append brief s.handled (R.events s.maps.events))
            ∙ append_assoc (map brief s.handled) (map brief (R.events s.maps.events)) calls
            ∙ ap (λ cs. map brief s.handled ++ cs) (sym events)
            ∙ sym (map-append brief s.handled (R.events (open_step T P R i s.maps).1.events)))

  run-IsAccounted :
      (first : P.Map) (schedule : List (Action OpenProbe)) (s : System FentryFexitEvent Q.Maps)
      → IsAccounted first s
      → IsAccounted first (run Q (fexit_handler memory) false schedule s)
  unfolding run act
  run-IsAccounted first [] s h = h
  run-IsAccounted first (event i ∷ more) s h =
      run-IsAccounted first more _ (event-IsAccounted first i s h)
  run-IsAccounted first (signal ∷ more) s h = run-IsAccounted first more _ h
  run-IsAccounted first (turn reply ∷ more) s h = run-IsAccounted first more _ (
      turn_at-keeps Q (fexit_handler memory) false (λ m. m.stats ≡ s.maps.stats) (λ m same. same)
        s.place reply s refl
      ∙ h
      ∙ ap (λ es. record_all P (map brief es) first)
          (sym (
            turn_at-records Q (fexit_handler memory) false Any Any open_programs-IsProducer s.place
              reply s)))

  -- The fentry_fexit example from the start of its loader's loop with an empty ring, on any schedule
  -- of entries and returns, signals and steps of the loader, whatever its polls return: the
  -- statistics are those before with the latencies of the records that were handed over and then of
  -- those in the ring, each recorded for its process, in their order; and the output is what the
  -- handler prints of the records handed over.
  pub fexit_session :
      (schedule : List (Action OpenProbe)) (s : LatencyState T.Map P.Map R.Buf)
      → R.events s.events ≡ []
      → let t = run Q (fexit_handler memory) false schedule (start s) in
        (t.maps.stats ≡ record_all P (map brief (t.handled ++ R.events t.maps.events)) s.stats)
        × (t.printed ≡ print_all (fexit_handler memory) t.handled)
  unfolding record_all
  fexit_session schedule s empty =
      let (appended, good, faithful) =
        run_delivers Q (fexit_handler memory) false Any Any open_programs-IsProducer schedule
          (start s) (AllAllowed-Any schedule) (All-Any _) refl in
      (run-IsAccounted s.stats schedule (start s) (rw empty refl), faithful)
