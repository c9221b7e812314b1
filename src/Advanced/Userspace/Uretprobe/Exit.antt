-- ===== src/Advanced/Userspace/Uretprobe/Exit.antt =====
-- The return probe of example_uretprobe.bpf.c with an entry time and a free record.
use monsa_ebpf.Base.{ℕ, ◌-◌, ◌^◌, ◌<◌, ◌≤◌, ◌≡◌, arith, none, some, [], ◌∷◌, ◌++◌}
use monsa_ebpf.Base.{sub64_eq, high32}
use monsa_ebpf.Kernel.{Helpers, PtRegs, HashMap, IsHash, RingBuf, IsRing}
use monsa_ebpf.Advanced.Latency.{LatencyStats, LatencyState, record_latency}
use monsa_ebpf.Advanced.Userspace.Uretprobe.{UretprobeEvent, fill, report, msb_uretprobe_exit}

module _ (T : HashMap ℕ ℕ) (P : HashMap ℕ LatencyStats) (R : RingBuf UretprobeEvent) where
  -- With an entry time `t` that is not later than the return, and a free record, the return appends
  -- one event with the time between the two, records that latency for the process, and takes the
  -- entry time out.
  pub msb_uretprobe_exit_reports :
      (L : IsHash T) (LR : IsRing R) (env : Helpers) (ctx : PtRegs) (t : ℕ)
      (s : LatencyState T.Map P.Map R.Buf) (b : R.Buf) (old : UretprobeEvent)
      → T.lookup s.entry_times env.pid_tgid ≡ some t
      → t ≤ env.ktime_ns
      → env.ktime_ns < 2 ^ 64
      → R.reserve s.events ≡ some (b, old)
      → let s' = (msb_uretprobe_exit T P R (env, ctx) s).1 in
        (evt : UretprobeEvent) × (R.events s'.events ≡ R.events s.events ++ evt ∷ [])
        × (evt.latency_ns ≡ env.ktime_ns - t)
        × (s'.stats ≡ record_latency P (high32 env.pid_tgid) (env.ktime_ns - t) s.stats)
        × (T.lookup s'.entry_times env.pid_tgid ≡ none)
  unfolding msb_uretprobe_exit report fill
  msb_uretprobe_exit_reports L LR env ctx t s b old h order word free = (
    fill env ctx t old,
    ground (arith, LR.events-reserve s.events free, LR.events-submit b (fill env ctx t old)),
    sub64_eq env.ktime_ns t order word,
    ground (arith, sub64_eq env.ktime_ns t order word),
    ground (arith, L.lookup-delete_self s.entry_times env.pid_tgid),
  )
