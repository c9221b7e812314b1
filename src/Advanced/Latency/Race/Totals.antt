-- ===== src/Advanced/Latency/Race/Totals.antt =====
-- Count and total are exact, however the CPUs interleave.
use monsa_ebpf.Base.{
  ℕ, zero, suc, ◌+◌, ◌%◌, ◌^◌, ◌≤◌, ◌<◌, ◌≡◌, refl, ◌∙◌, ap, List, [], ◌∷◌, length, ltb, add64,
  dec_lt, Bool-cases, inl, inr, arith,
}
use monsa_ebpf.Advanced.Latency.{LatencyStats}
use monsa_ebpf.Advanced.Latency.Summary.{sum}
use monsa_ebpf.Advanced.Latency.Race.{
  Stage, idle, totalling, min_testing, min_storing, max_testing, max_storing, LatencyRace,
  set_stage, add_count, add_total, test_min, store_min, test_max, store_max, set_stage_other,
  set_stage_self, step_from, interleave, quiet,
}

-- What a CPU has not added to the total yet.
abbrev owed : Stage → ℕ
owed (totalling l) = l
owed g = 0

-- The same for the CPUs below a number.
owed_by : ℕ → (ℕ → Stage) → ℕ
owed_by zero stage = 0
owed_by (suc n) stage = owed_by n stage + owed (stage n)

owed_by_above :
    (n cpu : ℕ) (g : Stage) (stage : ℕ → Stage)
    → n ≤ cpu
    → owed_by n (set_stage cpu g stage) ≡ owed_by n stage
unfolding owed_by
owed_by_above zero cpu g stage h = refl
owed_by_above (suc n) cpu g stage h = omega (
  arith,
  owed_by_above n cpu g stage (omega arith),
  ap owed (set_stage_other cpu n g stage (λ e. absurd (omega arith))),
)

owed_by-set_stage :
    (n cpu : ℕ) (g : Stage) (stage : ℕ → Stage)
    → cpu < n
    → owed_by n (set_stage cpu g stage) + owed (stage cpu) ≡ owed_by n stage + owed g
unfolding owed_by
owed_by-set_stage zero cpu g stage h = absurd (omega arith)
owed_by-set_stage (suc n) cpu g stage h = elim (dec_lt cpu n) [
  | yes below ↦ omega (
    arith,
    owed_by-set_stage n cpu g stage below,
    ap owed (set_stage_other cpu n g stage (λ e. absurd (omega arith))),
  )
  | no last ↦
      let e : cpu ≡ n = omega arith in
      rw e
        (omega (arith, owed_by_above n n g stage (omega arith), ap owed (set_stage_self n g stage)))
]

-- All CPUs of a schedule are below a number.
abbrev pub AllBelow : ℕ → List (ℕ × ℕ) → Type 0
AllBelow n [] = Unit
AllBelow n ((cpu, l) ∷ more) = (cpu < n) × AllBelow n more

module _ (n c t : ℕ) where
  -- Against a count `c` and a total `t` in the beginning.
  record Adds (s : LatencyRace) : Type 0 where
    counted : s.stats.count ≡ (c + length s.begun) % 2 ^ 64
    summed : (s.stats.total_ns + owed_by n s.stage) % 2 ^ 64 ≡ (t + sum s.begun) % 2 ^ 64
    word : s.stats.total_ns < 2 ^ 64

  -- A step that changes neither count nor total, from one stage without a debt to another.
  moved-Adds :
      (s u : LatencyRace) (cpu : ℕ) (g h : Stage)
      → cpu < n
      → s.stage cpu ≡ g
      → owed g ≡ owed h
      → u.stats.count ≡ s.stats.count
      → u.stats.total_ns ≡ s.stats.total_ns
      → u.begun ≡ s.begun
      → u.stage ≡ set_stage cpu h s.stage
      → Adds s
      → Adds u
  moved-Adds s u cpu g h small at same count total begun stage a = record {
    counted = rw (count, begun) a.counted;
    summed =
        let owes : owed_by n u.stage ≡ owed_by n s.stage =
          ap (owed_by n) stage
          ∙ omega (arith, owed_by-set_stage n cpu h s.stage small, ap owed at) in
        rw (owes, total, begun) a.summed;
    word = rw total a.word;
  }

  step_from-Adds :
      (g : Stage) (cpu l : ℕ) (s : LatencyRace)
      → cpu < n
      → s.stage cpu ≡ g
      → Adds s
      → Adds (step_from g cpu l s)
  unfolding step_from add_count add_total test_min store_min test_max store_max add64
  step_from-Adds idle cpu l s small at a = record {
    counted = omega (arith, a.counted);
    summed =
        omega (arith, a.summed, owed_by-set_stage n cpu (totalling l) s.stage small, ap owed at);
    word = a.word;
  }
  step_from-Adds (totalling k) cpu l s small at a = record {
    counted = a.counted;
    summed =
        omega (arith, a.summed, owed_by-set_stage n cpu (min_testing k) s.stage small, ap owed at);
    word = omega arith;
  }
  step_from-Adds (min_testing k) cpu l s small at a = elim (Bool-cases (ltb k s.stats.min_ns)) [
    | inl e ↦
        moved-Adds s _ cpu (min_testing k) (min_storing k) small at refl refl refl refl (rw e refl)
          a
    | inr e ↦
        moved-Adds s _ cpu (min_testing k) (max_testing k) small at refl refl refl refl (rw e refl)
          a
  ]
  step_from-Adds (min_storing k) cpu l s small at a =
      moved-Adds s _ cpu (min_storing k) (max_testing k) small at refl refl refl refl refl a
  step_from-Adds (max_testing k) cpu l s small at a = elim (Bool-cases (ltb s.stats.max_ns k)) [
    | inl e ↦
        moved-Adds s _ cpu (max_testing k) (max_storing k) small at refl refl refl refl (rw e refl)
          a
    | inr e ↦ moved-Adds s _ cpu (max_testing k) idle small at refl refl refl refl (rw e refl) a
  ]
  step_from-Adds (max_storing k) cpu l s small at a =
      moved-Adds s _ cpu (max_storing k) idle small at refl refl refl refl refl a

  interleave-Adds :
      (schedule : List (ℕ × ℕ)) (s : LatencyRace)
      → AllBelow n schedule
      → Adds s
      → Adds (interleave schedule s)
  unfolding interleave
  interleave-Adds [] s below a = a
  interleave-Adds ((cpu, l) ∷ more) s (small, below) a =
      interleave-Adds more _ below (step_from-Adds (s.stage cpu) cpu l s small refl a)

-- No CPU is between its two additions.
owed_by_none :
    (n : ℕ) (stage : ℕ → Stage) → ((cpu : ℕ) → cpu < n → owed (stage cpu) ≡ 0) → owed_by n stage ≡ 0
unfolding owed_by
owed_by_none zero stage h = refl
owed_by_none (suc n) stage h =
    omega (arith, owed_by_none n stage (λ cpu b. h cpu (omega arith)), h n (omega arith))

-- Statistics of 64-bit words, and any schedule of the CPUs below `n` after which all of them are
-- before an update again: the count has gone up by the number of the updates and the total by the sum
-- of their latencies, modulo 2 ^ 64.
pub totals_exact :
    (n : ℕ) (st : LatencyStats) (schedule : List (ℕ × ℕ))
    → AllBelow n schedule
    → st.count < 2 ^ 64
    → st.total_ns < 2 ^ 64
    → let s = interleave schedule (quiet st) in
      ((cpu : ℕ) → cpu < n → s.stage cpu ≡ idle)
      → (s.stats.count ≡ add64 st.count (length s.begun))
        × (s.stats.total_ns ≡ add64 st.total_ns (sum s.begun))
unfolding add64
totals_exact n st schedule below small_count small_total done =
    let s = interleave schedule (quiet st) in
    let none = owed_by_none n (λ c. idle) (λ cpu b. refl) in
    let a =
      interleave-Adds n st.count st.total_ns schedule (quiet st) below
        (record { counted = omega arith; summed = omega (arith, none); word = small_total }) in
    let settled = owed_by_none n s.stage (λ cpu b. ap owed (done cpu b)) in
    (a.counted, omega (arith, a.summed, a.word, settled))
