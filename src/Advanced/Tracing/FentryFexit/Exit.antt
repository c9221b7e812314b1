-- ===== src/Advanced/Tracing/FentryFexit/Exit.antt =====
-- The return probe of example_fentry_fexit.bpf.c: the entry times.
use monsa_ebpf.Base.{ℕ, ◌≡◌, arith, none}
use monsa_ebpf.Base.{Option-cases, inl, inr}
use monsa_ebpf.Kernel.{Helpers, HashMap, IsHash, RingBuf}
use monsa_ebpf.Advanced.Latency.{LatencyStats, LatencyState}
use monsa_ebpf.Advanced.Tracing.FentryFexit.{FentryFexitEvent, report, msb_fexit}

module _ (T : HashMap ℕ ℕ) (P : HashMap ℕ LatencyStats) (R : RingBuf FentryFexitEvent) where
  -- On every path of a return (no entry time, a full ring, a report) the thread has no entry time
  -- afterwards.
  pub msb_fexit_cleanup :
      (L : IsHash T) (env : Helpers) (ret : ℕ) (s : LatencyState T.Map P.Map R.Buf)
      → T.lookup (msb_fexit T P R (env, ret) s).1.entry_times env.pid_tgid ≡ none
  unfolding msb_fexit
  msb_fexit_cleanup L env ret s = elim (Option-cases (T.lookup s.entry_times env.pid_tgid)) [
    | inl e ↦ ground arith
    | inr (t, e) ↦
        rw (e, msb_fexit) (L.lookup-delete_self (report T P R env ret t s).entry_times env.pid_tgid)
  ]
