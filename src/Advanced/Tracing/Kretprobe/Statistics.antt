-- ===== src/Advanced/Tracing/Kretprobe/Statistics.antt =====
-- The statistics of example_kretprobe.bpf.c: an invariant of every entry, over any sequence of
-- probes.
use mathlib.Core.Path.{subst}
use mathlib.Core.Option.{some-injective, none-ne-some}
use monsa_ebpf.Base.{ℕ, ◌<◌, ◌≤◌, ◌≡◌, ◌⊎◌, inl, inr, refl, ap, sym, ◌∙◌, arith}
use monsa_ebpf.Base.{Option, none, some, List, [], ◌∷◌, Option-cases, Bool-cases}
use monsa_ebpf.Base.{ℤ, add64, ℕ_discrete}
use monsa_ebpf.Kernel.{HashMap, IsHash, RingBuf}
use monsa_ebpf.Counting.{run}
use monsa_ebpf.Advanced.Tracing.Kretprobe.Probes.{Probe, enter, leave, kret_step, statistics-leave}
use monsa_ebpf.Advanced.Tracing.Kretprobe.{
  PidStats, KretprobeEvent, KretState, zero_stats, tally_calls, tally_latency, tally, update_stats,
  msb_kprobe_openat_entry,
}

-- Each call is a success or an error, modulo 2 ^ 64; the least latency is not above the greatest,
-- and they are zero together, before the first latency.
pub record IsSound (st : PidStats) : Type 0 where
  pub split : st.total_calls ≡ add64 st.success_calls st.error_calls
  pub ordered : st.min_latency_ns ≤ st.max_latency_ns
  pub started : (0 < st.min_latency_ns) ⊎ (st.max_latency_ns ≡ 0)

zero_stats-IsSound : IsSound zero_stats
unfolding add64
zero_stats-IsSound = record { split = refl; ordered = omega arith; started = inr refl }

tally-IsSound :
    (latency : ℕ) (retval : ℤ) (st : PidStats) → IsSound st → IsSound (tally latency retval st)
unfolding tally tally_calls tally_latency add64
tally-IsSound latency retval st v = ground arith

-- The invariant of what a lookup returns.
unfoldable SoundEntry : Option PidStats → Type 0
SoundEntry none = Unit
SoundEntry (some st) = IsSound st

entry_of : (o : Option PidStats) → ((st : PidStats) → o ≡ some st → IsSound st) → SoundEntry o
unfolding SoundEntry
entry_of none f = tt
entry_of (some st) f = f st refl

of_entry : (o : Option PidStats) (st : PidStats) → SoundEntry o → o ≡ some st → IsSound st
unfolding SoundEntry
of_entry none st v e = absurd (none-ne-some _ e)
of_entry (some old) st v e = subst IsSound (some-injective _ _ e) v

-- The invariant of a whole map.
abbrev pub AllSound : (P : HashMap ℕ PidStats) → P.Map → Type 0
AllSound P m = (pid : ℕ) (st : PidStats) → P.lookup m pid ≡ some st → IsSound st

IsSound-some : {new st : PidStats} → some new ≡ some st → IsSound new → IsSound st
IsSound-some q v = subst IsSound (some-injective _ _ q) v

module _ (P : HashMap ℕ PidStats) (L : IsHash P) where
  -- A present entry that is written with sound statistics.
  store-AllSound :
      (m : P.Map) (pid : ℕ) (old new : PidStats)
      → P.lookup m pid ≡ some old
      → IsSound new
      → AllSound P m
      → AllSound P (P.store m pid new)
  store-AllSound m pid old new h v all j st e = elim (ℕ_discrete pid j) [
    | yes p ↦
        let same : P.lookup (P.store m pid new) pid ≡ some st =
          ap (P.lookup (P.store m pid new)) p ∙ e in
        IsSound-some (sym (L.lookup-store_self m pid new (λ n. cc)) ∙ same) v
    | no p ↦ all j st (sym (L.lookup-store_other m pid j new p) ∙ e)
  ]

  update-AllSound : (m : P.Map) (pid : ℕ) → AllSound P m → AllSound P (P.update m pid zero_stats)
  update-AllSound m pid all j st e = elim (ℕ_discrete pid j) [
    | no p ↦ all j st (sym (L.lookup-update_other m pid j zero_stats p) ∙ e)
    | yes p ↦
        let same : P.lookup (P.update m pid zero_stats) pid ≡ some st =
          ap (P.lookup (P.update m pid zero_stats)) p ∙ e in
        let law = L.lookup-update_self m pid zero_stats in
        elim (Bool-cases (P.admits m pid)) [
          | inl a ↦ IsSound-some (sym (rw a at law) ∙ same) zero_stats-IsSound
          | inr r ↦ all pid st (sym (rw r at law) ∙ same)
        ]
  ]

  update_stats-AllSound :
      (m : P.Map) (pid latency : ℕ) (retval : ℤ)
      → AllSound P m
      → AllSound P (update_stats P pid latency retval m)
  unfolding update_stats
  update_stats-AllSound m pid latency retval all = elim (Option-cases (P.lookup m pid)) [
    | inr (st, e) ↦
        rw (e, update_stats)
          (store-AllSound m pid st _ e (tally-IsSound latency retval st (all pid st e)) all)
    | inl e ↦
        let m' = P.update m pid zero_stats in
        let all' = update-AllSound m pid all in
        elim (Option-cases (P.lookup m' pid)) [
          | inr (st, f) ↦
              rw (e, f, update_stats)
                (store-AllSound m' pid st _ f (tally-IsSound latency retval st (all' pid st f))
                  all')
          | inl f ↦ rw (e, f, update_stats) all'
        ]
  ]

module _ (T : HashMap ℕ ℕ) (P : HashMap ℕ PidStats) (L : IsHash P)
    (R : RingBuf KretprobeEvent) where
  pub kret_step-AllSound :
      (i : Probe) (s : KretState T.Map P.Map R.Buf)
      → AllSound P s.pid_statistics
      → AllSound P (kret_step T P R i s).1.pid_statistics
  kret_step-AllSound (enter env) s all = unfold kret_step msb_kprobe_openat_entry in all
  kret_step-AllSound (leave env ctx) s all =
      subst (AllSound P) (sym (statistics-leave T P R env ctx s))
        (update_stats-AllSound P L _ _ _ _ all)

  run-AllSound :
      (is : List Probe) (s : KretState T.Map P.Map R.Buf)
      → AllSound P s.pid_statistics
      → AllSound P (run (kret_step T P R) is s).pid_statistics
  unfolding run
  run-AllSound [] s all = all
  run-AllSound (i ∷ is) s all = run-AllSound is _ (kret_step-AllSound i s all)

  -- After any sequence of entries and returns, every entry of `pid_statistics` is sound, if every
  -- entry was before: its calls are its successes plus its errors modulo 2 ^ 64, its least latency
  -- is not above its greatest, and the greatest is zero unless the least is positive.
  run-SoundEntry :
      (is : List Probe) (s : KretState T.Map P.Map R.Buf)
      → ((pid : ℕ) → SoundEntry (P.lookup s.pid_statistics pid))
      → (pid : ℕ) → SoundEntry (P.lookup (run (kret_step T P R) is s).pid_statistics pid)
  run-SoundEntry is s all pid = entry_of _ (run-AllSound is s (λ j st. of_entry _ st (all j)) pid)
