-- ===== src/Advanced/Tracing/Kretprobe/Pairing.antt =====
-- An entry and the return that follows it on the same thread, in example_kretprobe.bpf.c.
use monsa_ebpf.Base.{ℕ, ◌-◌, ◌^◌, ◌<◌, ◌≤◌, ◌≡◌, ◌≢◌, refl, ap, sym, ◌∙◌, arith, true}
use monsa_ebpf.Base.{none, some, List, [], ◌∷◌, ◌++◌, All, sub64, sub64_eq, signed64}
use monsa_ebpf.Kernel.{Helpers, PtRegs, HashMap, IsHash, RingBuf, IsRing}
use monsa_ebpf.Counting.{run}
use monsa_ebpf.Advanced.Tracing.Kretprobe.{
  PidStats, KretprobeEvent, KretState, fill, take_latency, msb_kprobe_openat_entry,
}
use monsa_ebpf.Advanced.Tracing.Kretprobe.Probes.{
  Probe, enter, leave, thread, kret_step, times-leave, events-leave,
}

module _ (T : HashMap ℕ ℕ) (L : IsHash T) where
  lookup-take_other :
      (env : Helpers) (m : T.Map) (k : ℕ)
      → env.pid_tgid ≢ k
      → T.lookup (take_latency T env m).0 k ≡ T.lookup m k
  unfolding take_latency
  lookup-take_other env m k h = ground (arith, L.lookup-delete_other m env.pid_tgid k h)

  -- The entry time is taken out, and the latency is the wrapped difference.
  take_present :
      (env : Helpers) (m : T.Map) (t : ℕ)
      → T.lookup m env.pid_tgid ≡ some t
      → (T.lookup (take_latency T env m).0 env.pid_tgid ≡ none)
        × ((take_latency T env m).1 ≡ sub64 env.ktime_ns t)
  unfolding take_latency
  take_present env m t h = ground (arith, L.lookup-delete_self m env.pid_tgid)

  module _ (P : HashMap ℕ PidStats) (R : RingBuf KretprobeEvent) where
    -- Probes on other threads leave the entry time of a thread alone.
    times-others :
        (is : List Probe) (s : KretState T.Map P.Map R.Buf) (k : ℕ)
        → All (λ i. thread i ≢ k) is
        → T.lookup (run (kret_step T P R) is s).entry_times k ≡ T.lookup s.entry_times k
    unfolding run
    times-others [] s k h = refl
    times-others (i ∷ is) s k (h, hs) = times-others is _ k hs ∙ one i h
      where
        one :
            (i : Probe)
            → thread i ≢ k
            → T.lookup (kret_step T P R i s).1.entry_times k ≡ T.lookup s.entry_times k
        one (enter env) h =
            unfold kret_step msb_kprobe_openat_entry in
            L.lookup-update_other s.entry_times env.pid_tgid k env.ktime_ns h
        one (leave env ctx) h =
            ap (λ (m : T.Map). T.lookup m k) (times-leave T P R env ctx s)
            ∙ lookup-take_other env s.entry_times k h

    entered :
        (env : Helpers) (s : KretState T.Map P.Map R.Buf)
        → T.admits s.entry_times env.pid_tgid ≡ true
        → T.lookup (kret_step T P R (enter env) s).1.entry_times env.pid_tgid ≡ some env.ktime_ns
    unfolding kret_step msb_kprobe_openat_entry
    entered env s room = rw room at (L.lookup-update_self s.entry_times env.pid_tgid env.ktime_ns)

    -- A thread enters, other threads enter and return in any order, and it returns at a 64-bit time
    -- that is not earlier. Where the entry map admitted it and the ring has a free record, the
    -- return appends one event whose latency is the time between the two, and takes the entry out
    -- of the map.
    pub latency_of_pair :
        (LR : IsRing R) (first last : Helpers) (ctx : PtRegs) (others : List Probe)
        (s : KretState T.Map P.Map R.Buf) (b : R.Buf) (old : KretprobeEvent)
        → T.admits s.entry_times first.pid_tgid ≡ true
        → All (λ i. thread i ≢ first.pid_tgid) others
        → last.pid_tgid ≡ first.pid_tgid
        → first.ktime_ns ≤ last.ktime_ns
        → last.ktime_ns < 2 ^ 64
        → R.reserve (run (kret_step T P R) (enter first ∷ others) s).events ≡ some (b, old)
        → let s' = run (kret_step T P R) (enter first ∷ others) s in
          let t = (kret_step T P R (leave last ctx) s').1 in
          (evt : KretprobeEvent) × (R.events t.events ≡ R.events s'.events ++ evt ∷ [])
          × (evt.latency_ns ≡ last.ktime_ns - first.ktime_ns)
          × (T.lookup t.entry_times first.pid_tgid ≡ none)
    unfolding run fill
    latency_of_pair LR first last ctx others s b old room apart same order word free =
        let s' = run (kret_step T P R) (enter first ∷ others) s in
        let stored : T.lookup s'.entry_times last.pid_tgid ≡ some first.ktime_ns =
          ap (T.lookup s'.entry_times) same
          ∙ times-others others _ first.pid_tgid apart
          ∙ entered first s room in
        let (gone, latency) = take_present last s'.entry_times first.ktime_ns stored in
        (
          fill last (take_latency T last s'.entry_times).1 (signed64 ctx.rc) old,
          events-leave T P R LR last ctx s' b old free,
          latency ∙ sub64_eq last.ktime_ns first.ktime_ns order word,
          ap (λ (m : T.Map). T.lookup m first.pid_tgid) (times-leave T P R last ctx s')
              ∙ ap (T.lookup (take_latency T last s'.entry_times).0) (sym same)
              ∙ gone,
        )
