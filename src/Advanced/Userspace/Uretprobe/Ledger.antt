-- ===== src/Advanced/Userspace/Uretprobe/Ledger.antt =====
-- The statistics of example_uretprobe.bpf.c against the events that it emits.
use mathlib.Core.List.{map, map-append}
use monsa_ebpf.Base.{ℕ, ◌≡◌, refl, ap, sym, ◌∙◌, arith, List, [], ◌∷◌, ◌++◌}
use monsa_ebpf.Base.{sub64, high32, Option-cases, inl, inr, append_assoc, append-nil}
use monsa_ebpf.Kernel.{Helpers, PtRegs, HashMap, RingBuf, IsRing}
use monsa_ebpf.Counting.{run}
use monsa_ebpf.Advanced.Latency.{LatencyStats, LatencyState}
use monsa_ebpf.Advanced.Latency.Summary.{record_all, record_all-append}
use monsa_ebpf.Advanced.Userspace.Uretprobe.{
  UretprobeEvent, fill, report, msb_uretprobe_entry, msb_uretprobe_exit,
}

pub data CallProbe : Type 0 where
  enter : Helpers → CallProbe
  leave : Helpers × PtRegs → CallProbe

-- The process and the latency of an event.
abbrev pub brief : UretprobeEvent → ℕ × ℕ
brief evt = (evt.pid, evt.latency_ns)

module _ (T : HashMap ℕ ℕ) (P : HashMap ℕ LatencyStats) (R : RingBuf UretprobeEvent) where
  unfoldable pub call_step :
      CallProbe → LatencyState T.Map P.Map R.Buf → ℕ × LatencyState T.Map P.Map R.Buf
  call_step (enter i) s = msb_uretprobe_entry T P R i s
  call_step (leave i) s = msb_uretprobe_exit T P R i s

  -- From one state to another the statistics take in the calls that the ring reports.
  abbrev Balanced : LatencyState T.Map P.Map R.Buf → LatencyState T.Map P.Map R.Buf → Type 0
  Balanced s t =
      (calls : List (ℕ × ℕ)) × (t.stats ≡ record_all P calls s.stats)
      × (map brief (R.events t.events) ≡ map brief (R.events s.events) ++ calls)

  unchanged :
      (s t : LatencyState T.Map P.Map R.Buf)
      → t.stats ≡ s.stats
      → t.events ≡ s.events
      → Balanced s t
  unfolding record_all
  unchanged s t p q = ([], p, ap (λ b. map brief (R.events b)) q ∙ sym (append-nil _))

  reported :
      (L : IsRing R) (env : Helpers) (ctx : PtRegs) (start : ℕ) (s : LatencyState T.Map P.Map R.Buf)
      → Balanced s (report T P R env ctx start s)
  unfolding report record_all fill
  reported L env ctx start s = elim (Option-cases (R.reserve s.events)) [
    | inl full ↦ unchanged s (report T P R env ctx start s) (ground arith) (ground arith)
    | inr ((b, old), free) ↦
        let latency = sub64 env.ktime_ns start in
        let pid = high32 env.pid_tgid in
        let evt = fill env ctx start old in
        let there : R.events (report T P R env ctx start s).events ≡ R.events s.events ++ evt ∷ [] =
          ground (arith, L.events-reserve s.events free, L.events-submit b evt) in
        (
          (pid, latency) ∷ [],
          ground arith,
          ap (map brief) there ∙ map-append brief (R.events s.events) (evt ∷ []),
        )
  ]

  step-Balanced :
      (L : IsRing R) (i : CallProbe) (s : LatencyState T.Map P.Map R.Buf)
      → Balanced s (call_step i s).1
  unfolding call_step msb_uretprobe_entry msb_uretprobe_exit
  step-Balanced L (enter env) s = unchanged s (msb_uretprobe_entry T P R env s).1 refl refl
  step-Balanced L (leave (env, ctx)) s = elim (Option-cases (T.lookup s.entry_times env.pid_tgid)) [
    | inl e ↦ unchanged s (msb_uretprobe_exit T P R (env, ctx) s).1 (ground arith) (ground arith)
    | inr (start, e) ↦ rw (e, msb_uretprobe_exit) (reported L env ctx start s)
  ]

  -- Over any sequence of entries and returns, on any threads, the statistics are those before with
  -- the latencies recorded that the new events report, each for its process and in their order: a
  -- call is in the statistics exactly if its event reached the ring.
  pub stats_of_uretprobe_events :
      (L : IsRing R) (is : List CallProbe) (s : LatencyState T.Map P.Map R.Buf)
      → let t = run call_step is s in
        (calls : List (ℕ × ℕ)) × (t.stats ≡ record_all P calls s.stats)
        × (map brief (R.events t.events) ≡ map brief (R.events s.events) ++ calls)
  unfolding run
  stats_of_uretprobe_events L [] s = unchanged s s refl refl
  stats_of_uretprobe_events L (i ∷ is) s =
      let (one, p, q) = step-Balanced L i s in
      let (more, p', q') = stats_of_uretprobe_events L is (call_step i s).1 in
      (
        one ++ more,
        p' ∙ ap (record_all P more) p ∙ sym (record_all-append P one more s.stats),
        q' ∙ ap (λ es. es ++ more) q ∙ append_assoc (map brief (R.events s.events)) one more,
      )
