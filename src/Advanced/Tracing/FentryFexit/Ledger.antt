-- ===== src/Advanced/Tracing/FentryFexit/Ledger.antt =====
-- The statistics of example_fentry_fexit.bpf.c against the events that it emits.
use mathlib.Core.List.{map, map-append}
use monsa_ebpf.Base.{ℕ, ◌≡◌, refl, ap, sym, ◌∙◌, arith, List, [], ◌∷◌, ◌++◌}
use monsa_ebpf.Base.{sub64, high32, Option-cases, inl, inr, append_assoc, append-nil}
use monsa_ebpf.Kernel.{Helpers, HashMap, RingBuf, IsRing}
use monsa_ebpf.Counting.{run}
use monsa_ebpf.Advanced.Latency.{LatencyStats, LatencyState}
use monsa_ebpf.Advanced.Latency.Summary.{record_all, record_all-append}
use monsa_ebpf.Advanced.Tracing.FentryFexit.{
  FentryFexitEvent, event_count, fill, report, msb_fentry, msb_fexit,
}

pub data OpenProbe : Type 0 where
  enter : Helpers × ℕ → OpenProbe
  leave : Helpers × ℕ → OpenProbe

-- The process and the latency of an event.
abbrev pub brief : FentryFexitEvent → ℕ × ℕ
brief evt = (evt.pid, evt.latency_ns)

module _ (T : HashMap ℕ ℕ) (P : HashMap ℕ LatencyStats) (R : RingBuf FentryFexitEvent) where
  unfoldable pub open_step :
      OpenProbe → LatencyState T.Map P.Map R.Buf → ℕ × LatencyState T.Map P.Map R.Buf
  open_step (enter i) s = msb_fentry T P R i s
  open_step (leave i) s = msb_fexit T P R i s

  -- From one state to another the statistics take in the calls that the ring reports.
  abbrev pub Balanced : LatencyState T.Map P.Map R.Buf → LatencyState T.Map P.Map R.Buf → Type 0
  Balanced s t =
      (calls : List (ℕ × ℕ)) × (t.stats ≡ record_all P calls s.stats)
      × (map brief (R.events t.events) ≡ map brief (R.events s.events) ++ calls)

  unchanged :
      (s t : LatencyState T.Map P.Map R.Buf)
      → t.stats ≡ s.stats
      → t.events ≡ s.events
      → Balanced s t
  unfolding record_all
  unchanged s t p q = ([], p, ap (λ b. map brief (R.events b)) q ∙ sym (append-nil _))

  reported :
      (L : IsRing R) (env : Helpers) (ret start : ℕ) (s : LatencyState T.Map P.Map R.Buf)
      → Balanced s (report T P R env ret start s)
  unfolding report record_all fill
  reported L env ret start s = elim (Option-cases (R.reserve s.events)) [
    | inl full ↦ unchanged s (report T P R env ret start s) (ground arith) (ground arith)
    | inr ((b, old), free) ↦
        let latency = sub64 env.ktime_ns start in
        let pid = high32 env.pid_tgid in
        let evt = fill env start ret (event_count (P.lookup s.stats pid) latency) old in
        let there : R.events (report T P R env ret start s).events ≡ R.events s.events ++ evt ∷ [] =
          ground (arith, L.events-reserve s.events free, L.events-submit b evt) in
        (
          (pid, latency) ∷ [],
          ground arith,
          ap (map brief) there ∙ map-append brief (R.events s.events) (evt ∷ []),
        )
  ]

  pub step-Balanced :
      (L : IsRing R) (i : OpenProbe) (s : LatencyState T.Map P.Map R.Buf)
      → Balanced s (open_step i s).1
  unfolding open_step msb_fentry msb_fexit
  step-Balanced L (enter (env, filename)) s =
      unchanged s (msb_fentry T P R (env, filename) s).1 refl refl
  step-Balanced L (leave (env, ret)) s = elim (Option-cases (T.lookup s.entry_times env.pid_tgid)) [
    | inl e ↦ unchanged s (msb_fexit T P R (env, ret) s).1 (ground arith) (ground arith)
    | inr (start, e) ↦ rw (e, msb_fexit) (reported L env ret start s)
  ]

  -- Over any sequence of entries and returns, on any threads, the statistics are those before with
  -- the latencies recorded that the new events report, each for its process and in their order: a
  -- call is in the statistics exactly if its event reached the ring.
  stats_of_fexit_events :
      (L : IsRing R) (is : List OpenProbe) (s : LatencyState T.Map P.Map R.Buf)
      → let t = run open_step is s in
        (calls : List (ℕ × ℕ)) × (t.stats ≡ record_all P calls s.stats)
        × (map brief (R.events t.events) ≡ map brief (R.events s.events) ++ calls)
  unfolding run
  stats_of_fexit_events L [] s = unchanged s s refl refl
  stats_of_fexit_events L (i ∷ is) s =
      let (one, p, q) = step-Balanced L i s in
      let (more, p', q') = stats_of_fexit_events L is (open_step i s).1 in
      (
        one ++ more,
        p' ∙ ap (record_all P more) p ∙ sym (record_all-append P one more s.stats),
        q' ∙ ap (λ es. es ++ more) q ∙ append_assoc (map brief (R.events s.events)) one more,
      )
