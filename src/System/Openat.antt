-- ===== src/System/Openat.antt =====
-- The kretprobe example at work, its two programs and its loader together.
pub mod Ranges
pub mod Calls
use monsa_ebpf.Base.{
  ℕ, ◌<◌, ◌^◌, ◌≡◌, ◌⊎◌, refl, ◌∙◌, sym, some, List, [], ◌∷◌, ◌++◌, append-nil, arith, All,
  All-first, true, ℤ, pos, neg, length, length-drop, signed64, low32, high32, memcpy, sub64, to_s32,
}
use monsa_ebpf.Kernel.{Helpers, HashMap, IsHash, RingBuf, IsRing, IsConsumer}
use monsa_ebpf.Counting.Emit.{emit-appends}
use monsa_ebpf.Advanced.Tracing.Kretprobe.{
  PidStats, KretprobeEvent, KretState, fill, take_latency, is_error_retval, error_code_of,
  msb_kprobe_openat_entry, msb_kretprobe_openat_exit,
}
use monsa_ebpf.Advanced.Tracing.Kretprobe.Classify.{IsErrno, classify}
use monsa_ebpf.Advanced.Tracing.Kretprobe.Probes.{Probe, enter, leave, kret_step}
use monsa_ebpf.Advanced.Tracing.Kretprobe.Statistics.{AllSound, kret_step-AllSound}
use monsa_ebpf.Loader.{kretprobe}
use monsa_ebpf.Report.Print.{Line}
use monsa_ebpf.Report.Layout.{Fits, s32, s64, int, AllFit}
use monsa_ebpf.Report.Records.Probes.{kretprobe_written, kretprobe_wire, kretprobe_report}
use monsa_ebpf.Report.Wire.{submitted}
use monsa_ebpf.Report.Delivery.{advanced, handle_event, handle_event-submitted, report_of}
use monsa_ebpf.System.{Programs, IsProducer, Action, run, start}
use monsa_ebpf.System.Kept.{run-keeps}
use monsa_ebpf.System.Delivery.{AllAllowed, print_all, run_delivers}
use monsa_ebpf.System.Openat.Ranges.{IsProbe, IsRecord, fill-IsRecord, take_latency-lt}
use monsa_ebpf.System.Openat.Calls.{kret_programs, AreReports, returned, emissions-AreReports}

abbrev pub kret_handler : (ℕ → ℕ) → KretprobeEvent → List Line
kret_handler memory e =
    handle_event (advanced kretprobe) (submitted memory kretprobe_written (kretprobe_wire.stored e))

print_all-records :
    (memory : ℕ → ℕ) (es : List KretprobeEvent)
    → All IsRecord es
    → print_all (kret_handler memory) es ≡ print_all kretprobe_report es
unfolding report_of
print_all-records memory [] typed = refl
print_all-records memory (e ∷ es) (fit, typed) =
    rw (handle_event-submitted (advanced kretprobe) memory e fit, print_all-records memory es typed)
      refl

module _ (T : HashMap ℕ ℕ) (P : HashMap ℕ PidStats) (L : IsHash P) (R : RingBuf KretprobeEvent)
    (LR : IsRing R) (consume : R.Buf → R.Buf) (C : IsConsumer R consume)
    (sized : (b b' : R.Buf) (old : KretprobeEvent)
      → R.reserve b ≡ some (b', old)
      → length old.func_name ≡ 32)
    (memory : ℕ → ℕ) where
  step-appends :
      (i : Probe) (s : KretState T.Map P.Map R.Buf)
      → IsProbe i
      → (new : List KretprobeEvent) × (R.events (kret_step T P R i s).1.events
          ≡ R.events s.events ++ new)
        × All IsRecord new
  unfolding kret_step msb_kprobe_openat_entry msb_kretprobe_openat_exit
  step-appends (enter env) s h = ([], sym (append-nil (R.events s.events)), tt)
  step-appends (leave env ctx) s (h, bound) =
      let latency = (take_latency T env s.entry_times).1 in
      emit-appends R _ _ LR IsRecord _ (λ b old e.
        fill-IsRecord env latency ctx.rc old h (take_latency-lt T env s.entry_times) bound
          (sized s.events b old e))

  pub kret_programs-IsProducer : IsProducer (kret_programs T P R consume) IsProbe IsRecord
  kret_programs-IsProducer = record {
    unread-fire = step-appends;
    unread-advance = λ m e rest h. C.events-consume m.events e rest h;
  }

  -- The kretprobe example from the start of its loader's loop with an empty ring, on any schedule of
  -- entries and returns with values of their types, signals and steps of the loader, whatever its
  -- polls return: the output is the report of the records that the loader took from the ring; these
  -- and those still in the ring are of some of the returns, each of one, in their order, with the
  -- process and the signed value of the return register, and with the error and its number if that
  -- register holds a number from -4095 to -1, and with no error if not; and if it was so before, the
  -- statistics of every process have as many calls as successes and errors modulo 2 ^ 64 and a least
  -- latency not above the greatest, which is zero unless the least is positive.
  pub openat_session :
      (schedule : List (Action Probe)) (s : KretState T.Map P.Map R.Buf)
      → AllAllowed IsProbe schedule
      → R.events s.events ≡ []
      → AllSound P s.pid_statistics
      → let t = run (kret_programs T P R consume) (kret_handler memory) true schedule (start s) in
        (t.printed ≡ print_all kretprobe_report t.handled)
        × AreReports (t.handled ++ R.events t.maps.events) (returned schedule)
        × AllSound P t.maps.pid_statistics
  openat_session schedule s allowed empty sound =
      let Q = kret_programs T P R consume in
      let (appended, good, faithful) =
        run_delivers Q (kret_handler memory) true IsProbe IsRecord kret_programs-IsProducer schedule
          (start s) allowed (rw empty tt) refl in
      (
        faithful ∙ print_all-records memory _ (All-first IsRecord _ _ good),
        rw (appended, empty)
            (emissions-AreReports T P R LR consume (kret_handler memory) true schedule (start s)
              allowed),
        run-keeps Q (kret_handler memory) true
            (λ (m : KretState T.Map P.Map R.Buf). AllSound P m.pid_statistics) (λ m all. all)
            (kret_step-AllSound T P L R) schedule (start s) sound,
      )
