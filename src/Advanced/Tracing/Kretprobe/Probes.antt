-- ===== src/Advanced/Tracing/Kretprobe/Probes.antt =====
-- The two programs of example_kretprobe.bpf.c as the steps of one system.
use monsa_ebpf.Base.{ℕ, ◌≡◌, refl, some, [], ◌∷◌, ◌++◌, signed64, high32}
use monsa_ebpf.Kernel.{Helpers, PtRegs, HashMap, RingBuf, IsRing}
use monsa_ebpf.Counting.Emit.{emit-counts, events-emit}
use monsa_ebpf.Advanced.Tracing.Kretprobe.{
  PidStats, KretprobeEvent, KretState, fill, take_latency, update_stats, msb_kprobe_openat_entry,
  msb_kretprobe_openat_exit,
}

pub data Probe : Type 0 where
  enter : Helpers → Probe
  leave : Helpers → PtRegs → Probe

-- The thread on which a probe fires.
abbrev pub thread : Probe → ℕ
thread (enter env) = env.pid_tgid
thread (leave env ctx) = env.pid_tgid

module _ (T : HashMap ℕ ℕ) (P : HashMap ℕ PidStats) (R : RingBuf KretprobeEvent) where
  unfoldable pub kret_step : Probe → KretState T.Map P.Map R.Buf → ℕ × KretState T.Map P.Map R.Buf
  kret_step (enter env) s = msb_kprobe_openat_entry T P R env s
  kret_step (leave env ctx) s = msb_kretprobe_openat_exit T P R (env, ctx) s

  -- What a return leaves in the two hash maps.
  pub statistics-leave :
      (env : Helpers) (ctx : PtRegs) (s : KretState T.Map P.Map R.Buf)
      → (kret_step (leave env ctx) s).1.pid_statistics
        ≡ update_stats P
            (high32 env.pid_tgid)
            (take_latency T env s.entry_times).1
            (signed64 ctx.rc)
            s.pid_statistics
  unfolding kret_step msb_kretprobe_openat_exit
  statistics-leave env ctx s = emit-counts R _ _ _

  pub times-leave :
      (env : Helpers) (ctx : PtRegs) (s : KretState T.Map P.Map R.Buf)
      → (kret_step (leave env ctx) s).1.entry_times ≡ (take_latency T env s.entry_times).0
  unfolding kret_step msb_kretprobe_openat_exit
  times-leave env ctx s = refl

  pub events-leave :
      (L : IsRing R) (env : Helpers) (ctx : PtRegs) (s : KretState T.Map P.Map R.Buf) (b : R.Buf)
      (old : KretprobeEvent)
      → R.reserve s.events ≡ some (b, old)
      → R.events (kret_step (leave env ctx) s).1.events
        ≡ R.events s.events
          ++ fill env (take_latency T env s.entry_times).1 (signed64 ctx.rc) old ∷ []
  unfolding kret_step msb_kretprobe_openat_exit
  events-leave L env ctx s b old h = events-emit R _ _ L _ b old h
