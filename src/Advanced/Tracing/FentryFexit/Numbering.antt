-- ===== src/Advanced/Tracing/FentryFexit/Numbering.antt =====
-- How example_fentry_fexit.bpf.c numbers the calls of a process in its events.
use mathlib.Core.Logic.{ite, if_pos, if_neg}
use monsa_ebpf.Base.{
  ℕ, zero, suc, ◌+◌, ◌<◌, ◌^◌, ◌≡◌, ◌⊎◌, inl, inr, refl, ap, sym, ◌∙◌, arith, some, List, [], ◌∷◌,
  ◌++◌, append-nil, append_assoc, add64, add64-lt, add64_eq, add64-add64, sub64, high32, ℕ_discrete,
  Option-cases,
}
use monsa_ebpf.Kernel.{Helpers, HashMap, IsHash, RingBuf, IsRing}
use monsa_ebpf.Counting.{run}
use monsa_ebpf.Advanced.Latency.{LatencyStats, LatencyState, add_latency, record_latency}
use monsa_ebpf.Advanced.Latency.Summary.{record_present, record_other}
use monsa_ebpf.Advanced.Tracing.FentryFexit.{
  FentryFexitEvent, event_count, fill, report, msb_fentry, msb_fexit,
}
use monsa_ebpf.Advanced.Tracing.FentryFexit.Ledger.{OpenProbe, enter, leave, open_step}

-- The numbers that the events of a process give to its calls.
unfoldable pub numbers_of : ℕ → List FentryFexitEvent → List ℕ
numbers_of pid [] = []
numbers_of pid (e ∷ es) =
    ite (ℕ_discrete e.pid pid) (e.count ∷ numbers_of pid es) (numbers_of pid es)

-- `n` consecutive 64-bit numbers, from `c + k` on.
unfoldable pub consecutive : ℕ → ℕ → ℕ → List ℕ
consecutive c k zero = []
consecutive c k (suc n) = add64 c k ∷ consecutive c (suc k) n

consecutive-add64 : (c k n : ℕ) → consecutive (add64 c 1) k n ≡ consecutive c (suc k) n
unfolding consecutive
consecutive-add64 c k zero = refl
consecutive-add64 c k (suc n) =
    let e : 1 + k ≡ suc k = omega arith in
    rw (add64-add64 c 1 k, e, consecutive-add64 c (suc k) n) refl

next_count : (l : ℕ) (st : LatencyStats) → (add_latency l st).count ≡ add64 st.count 1
unfolding add_latency
next_count l st = refl

next_count-lt : (l : ℕ) (st : LatencyStats) → (add_latency l st).count < 2 ^ 64
next_count-lt l st = rw (next_count l st) (add64-lt st.count 1)

event_count-some : (st : LatencyStats) (l : ℕ) → event_count (some st) l ≡ add64 st.count 2
unfolding event_count
event_count-some st l = rw (next_count l st) (add64-add64 st.count 1 1)

module _ (T : HashMap ℕ ℕ) (P : HashMap ℕ LatencyStats) (R : RingBuf FentryFexitEvent)
    (LR : IsRing R) where
  -- A step leaves statistics and ring as they are, or reports a call to both.
  abbrev Reports : LatencyState T.Map P.Map R.Buf → LatencyState T.Map P.Map R.Buf → Type 0
  Reports s t =
      ((t.stats ≡ s.stats) × (R.events t.events ≡ R.events s.events))
      ⊎ ((l : ℕ) × (e : FentryFexitEvent) × (t.stats ≡ record_latency P e.pid l s.stats)
          × (R.events t.events ≡ R.events s.events ++ e ∷ [])
          × (e.count ≡ event_count (P.lookup s.stats e.pid) l))

  report-Reports :
      (env : Helpers) (ret since : ℕ) (s : LatencyState T.Map P.Map R.Buf)
      → Reports s (report T P R env ret since s)
  unfolding report fill
  report-Reports env ret since s = elim (Option-cases (R.reserve s.events)) [
    | inl full ↦ inl (ground arith, ground arith)
    | inr ((b, old), free) ↦
        let l = sub64 env.ktime_ns since in
        let e = fill env since ret (event_count (P.lookup s.stats (high32 env.pid_tgid)) l) old in
        inr (
          l,
          e,
          ground arith,
          ground (arith, LR.events-reserve s.events free, LR.events-submit b e),
          refl,
        )
  ]

  step-Reports :
      (i : OpenProbe) (s : LatencyState T.Map P.Map R.Buf) → Reports s (open_step T P R i s).1
  unfolding open_step msb_fentry msb_fexit
  step-Reports (enter i) s = inl (refl, refl)
  step-Reports (leave (env, ret)) s = elim (Option-cases (T.lookup s.entry_times env.pid_tgid)) [
    | inl e ↦ inl (ground arith, ground arith)
    | inr (since, e) ↦ rw (e, msb_fexit) (report-Reports env ret since s)
  ]

  -- Of a process with statistics, over any sequence of entries and returns on any threads: the stored
  -- count goes up by the number of its new events in the ring, modulo 2 ^ 64; but these give its calls
  -- consecutive numbers from two above the old count on, one more than the count then stored.
  pub fexit_numbers :
      (L : IsHash P) (is : List OpenProbe) (s : LatencyState T.Map P.Map R.Buf) (pid : ℕ)
      (st : LatencyStats)
      → st.count < 2 ^ 64
      → P.lookup s.stats pid ≡ some st
      → let t = run (open_step T P R) is s in
        (new : List FentryFexitEvent) × (n : ℕ) × (last : LatencyStats) × (R.events t.events
          ≡ R.events s.events ++ new)
        × (numbers_of pid new ≡ consecutive st.count 2 n)
        × (P.lookup t.stats pid ≡ some last)
        × (last.count ≡ add64 st.count n)
  unfolding run numbers_of consecutive
  fexit_numbers L [] s pid st bound h =
      let zero_more : st.count ≡ add64 st.count 0 = omega (arith, add64_eq st.count 0, bound) in
      ([], 0, st, sym (append-nil (R.events s.events)), refl, h, zero_more)
  fexit_numbers L (i ∷ is) s pid st bound h =
      let s' = (open_step T P R i s).1 in
      elim (step-Reports i s) [
        | inl (stats, events) ↦
            let (new, n, last, rest, numbers, found, count) =
              fexit_numbers L is s' pid st bound (rw stats h) in
            (new, n, last, rest ∙ ap (λ es. es ++ new) events, numbers, found, count)
        | inr (l, e, stats, events, said) ↦ elim (ℕ_discrete e.pid pid) [
          | no other ↦
              let (new, n, last, rest, numbers, found, count) =
                fexit_numbers L is s' pid st bound
                  (rw stats (record_other P L e.pid l pid s.stats other ∙ h)) in
              (
                e ∷ new,
                n,
                last,
                rest ∙ ap (λ es. es ++ new) events ∙ append_assoc (R.events s.events) (e ∷ []) new,
                rw (if_neg _ other) numbers,
                found,
                count,
              )
          | yes same ↦
              let own : P.lookup s.stats e.pid ≡ some st = rw same h in
              let next = add_latency l st in
              let stored : P.lookup s'.stats pid ≡ some next =
                rw (stats, same) (record_present P L pid l s.stats st h) in
              let (new, n, last, rest, numbers, found, count) =
                fexit_numbers L is s' pid next (next_count-lt l st) stored in
              let numbered : numbers_of pid new ≡ consecutive st.count 3 n =
                numbers
                ∙ ap (λ c. consecutive c 2 n) (next_count l st)
                ∙ consecutive-add64 st.count 2 n in
              let sum : 1 + n ≡ suc n = omega arith in
              let raised : last.count ≡ add64 st.count (suc n) =
                count
                ∙ ap (λ c. add64 c n) (next_count l st)
                ∙ add64-add64 st.count 1 n
                ∙ ap (add64 st.count) sum in
              (
                e ∷ new,
                suc n,
                last,
                rest ∙ ap (λ es. es ++ new) events ∙ append_assoc (R.events s.events) (e ∷ []) new,
                rw (if_pos _ same) (
                    ap (λ k. k ∷ numbers_of pid new)
                      (said ∙ ap (λ o. event_count o l) own ∙ event_count-some st l)
                    ∙ ap (λ ks. add64 st.count 2 ∷ ks) numbered),
                found,
                raised,
              )
        ]
      ]
