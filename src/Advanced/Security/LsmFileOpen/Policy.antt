-- ===== src/Advanced/Security/LsmFileOpen/Policy.antt =====
-- The decisions of lsm_file_open.bpf.c and its counters, over any sequence of opens.
use mathlib.Core.Logic.{if_pos}
use monsa_ebpf.Base.{ℕ, ◌+◌, ◌^◌, ◌<◌, ◌≤◌, ◌≡◌, ◌≢◌, ap, ◌∙◌, arith, none, some, List, [], ◌∷◌}
use Prim.Native.Nat.{zero-le}
use monsa_ebpf.Base.{
  ℤ, pos, add64, add64-lt, add64-add64, add64_eq, high32, map, ℕ_discrete, Option-cases, inl, inr,
}
use monsa_ebpf.Kernel.{Helpers, HashMap, IsHash, RingBuf}
use monsa_ebpf.Counting.{State}
use monsa_ebpf.Counting.Trace.{occurrences, occurrences-cons}
use monsa_ebpf.Advanced.Security.LsmFileOpen.{LsmEvent, LsmStats, update_stats, msb_lsm_file_open}

abbrev pub allowed : LsmStats → ℕ → LsmStats
allowed st n = record st { allow_count = add64 st.allow_count n }

allowed_zero : (st : LsmStats) → st.allow_count < 2 ^ 64 → st ≡ allowed st 0
allowed_zero st h = ground (arith, add64_eq st.allow_count 0)

allowed-allowed : (st : LsmStats) (n k : ℕ) → allowed (allowed st n) k ≡ allowed st (n + k)
allowed-allowed st n k = ground (arith, add64-add64 st.allow_count n k)

module _ (H : HashMap ℕ LsmStats) (L : IsHash H) (m : H.Map) (pid : ℕ) where
  update_present :
      (st : LsmStats)
      → H.lookup m pid ≡ some st
      → H.lookup (update_stats H pid (pos 0) m).0 pid ≡ some (allowed st 1)
  unfolding update_stats
  update_present st h =
      ground (arith, L.lookup-store_self m pid (allowed st 1) (λ (e : H.lookup m pid ≡ none). cc))

  update_other : (j : ℕ) → pid ≢ j → H.lookup (update_stats H pid (pos 0) m).0 j ≡ H.lookup m j
  unfolding update_stats
  update_other j h = elim (Option-cases (H.lookup m pid)) [
    | inl e ↦
        ground (arith, L.lookup-update_other m pid j (record { allow_count = 1; deny_count = 0 }) h)
    | inr (st, e) ↦ ground (arith, L.lookup-store_other m pid j (allowed st 1) h)
  ]

module _ (H : HashMap ℕ LsmStats) (R : RingBuf LsmEvent) where
  -- The state after a sequence of opens.
  unfoldable pub run_opens : List Helpers → State H.Map R.Buf → State H.Map R.Buf
  run_opens [] s = s
  run_opens (env ∷ envs) s = run_opens envs (msb_lsm_file_open H R env s).1

  -- A full ring: the open is allowed, and nothing is counted or logged.
  pub msb_lsm_file_open_full :
      (env : Helpers) (s : State H.Map R.Buf)
      → R.reserve s.events ≡ none
      → msb_lsm_file_open H R env s ≡ (pos 0, s)
  unfolding msb_lsm_file_open
  msb_lsm_file_open_full env s full = rw (full, msb_lsm_file_open)

  -- The counters after an open that has a free record.
  counts-open :
      (env : Helpers) (s : State H.Map R.Buf) (b : R.Buf) (old : LsmEvent)
      → R.reserve s.events ≡ some (b, old)
      → (msb_lsm_file_open H R env s).1.counts
        ≡ (update_stats H (high32 env.pid_tgid) (pos 0) s.counts).0
  unfolding msb_lsm_file_open
  counts-open env s b old free = rw (free, msb_lsm_file_open)

  -- What one open does to the entry of a process.
  open_one :
      (L : IsHash H) (env : Helpers) (s : State H.Map R.Buf) (pid : ℕ) (st : LsmStats)
      → H.lookup s.counts pid ≡ some st
      → st.allow_count < 2 ^ 64
      → (n : ℕ) × (n ≤ occurrences ℕ_discrete pid (high32 env.pid_tgid ∷ []))
        × (H.lookup (msb_lsm_file_open H R env s).1.counts pid
            ≡ some (record st { allow_count = add64 st.allow_count n }))
  unfolding occurrences
  open_one L env s pid st h word = elim (Option-cases (R.reserve s.events)) [
    | inl full ↦ (
      0,
      omega arith,
      ap (λ (r : ℤ × State H.Map R.Buf). H.lookup r.1.counts pid)
            (msb_lsm_file_open_full env s full)
          ∙ h
          ∙ ap some (allowed_zero st word),
    )
    | inr ((b, old), free) ↦ elim (ℕ_discrete (high32 env.pid_tgid) pid) [
      | yes same ↦ (
        1,
        rw (if_pos _ same) (omega arith),
        ap (λ (m : H.Map). H.lookup m pid) (counts-open env s b old free)
            ∙ rw same (update_present H L s.counts pid st h),
      )
      | no other ↦ (
        0,
        omega arith,
        ap (λ (m : H.Map). H.lookup m pid) (counts-open env s b old free)
            ∙ update_other H L s.counts (high32 env.pid_tgid) pid other
            ∙ h
            ∙ ap some (allowed_zero st word),
      )
    ]
  ]

  -- Over any sequence of opens, a process whose entry is there with a 64-bit allow counter has that
  -- counter raised by at most the number of its opens, modulo 2 ^ 64, and its deny counter never
  -- changes.
  pub lookup-run_opens :
      (L : IsHash H) (envs : List Helpers) (s : State H.Map R.Buf) (pid : ℕ) (st : LsmStats)
      → H.lookup s.counts pid ≡ some st
      → st.allow_count < 2 ^ 64
      → (n : ℕ) × (n ≤ occurrences ℕ_discrete pid (map (λ env. high32 env.pid_tgid) envs))
        × (H.lookup (run_opens envs s).counts pid
            ≡ some (record st { allow_count = add64 st.allow_count n }))
  unfolding run_opens
  lookup-run_opens L [] s pid st h word = (0, zero-le, h ∙ ap some (allowed_zero st word))
  lookup-run_opens L (env ∷ envs) s pid st h word =
      let (n, le, e) = open_one L env s pid st h word in
      let (k, le', e') = lookup-run_opens L envs _ pid (allowed st n) e (add64-lt _ _) in
      (
        n + k,
        omega (
          arith,
          occurrences-cons ℕ_discrete pid (high32 env.pid_tgid)
              (map (λ (e : Helpers). high32 e.pid_tgid) envs),
        ),
        e' ∙ ap some (allowed-allowed st n k),
      )
