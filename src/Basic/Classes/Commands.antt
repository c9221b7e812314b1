-- ===== src/Basic/Classes/Commands.antt =====
-- The counters of S1-basic/examples/cgroup/cgroup_bpf as its loader prints them.
use monsa_ebpf.Base.{ℕ, zero, suc, ◌+◌, ◌<◌, ◌≡◌, refl, ◌∙◌, arith, ℕ_discrete}
use monsa_ebpf.Base.{List, [], ◌∷◌, map, All, length, add64}
use monsa_ebpf.Counting.{run}
use monsa_ebpf.Counting.Trace.{occurrences, occurrences-cons}
use monsa_ebpf.Basic.PerCpu.{PerCpuArray, IsPerCpuArray, num_cpus, printed_total}
use monsa_ebpf.Basic.PerCpu.Totals
use monsa_ebpf.Basic.Classes.{cmd_idx, msb_lsm_bpf}

-- The class of a call: the CPU, and the command.
abbrev pub class : ℕ × ℕ → ℕ
class (cpu, cmd) = cmd_idx cmd

abbrev pub cpu_of : ℕ × ℕ → ℕ
cpu_of (cpu, cmd) = cpu

-- After any sequence of calls on the CPUs that the loader sums, the total that it prints for one of
-- the five indices has gone up by the number of calls of that class, modulo 2 ^ 64.
pub printed_total-run :
    (A : PerCpuArray ℕ) (possible : ℕ) (L : IsPerCpuArray A possible 5) (is : List (ℕ × ℕ))
    (m : A.Map) (idx : ℕ)
    → idx < 5
    → All (λ i. cpu_of i < num_cpus possible) is
    → printed_total A possible (run (msb_lsm_bpf A) is m) idx
      ≡ add64 (printed_total A possible m idx) (occurrences ℕ_discrete idx (map class is))
unfolding printed_total msb_lsm_bpf num_cpus
printed_total-run A possible L is m idx index on =
    Totals.total-run A L (msb_lsm_bpf A) cpu_of class (λ i m. refl) is m idx (num_cpus possible)
      (ground arith) index on

-- The five counts of a list of classes, together.
abbrev together : List ℕ → ℕ
together js =
    occurrences ℕ_discrete 0 js
    + (occurrences ℕ_discrete 1 js
        + (occurrences ℕ_discrete 2 js
            + (occurrences ℕ_discrete 3 js + occurrences ℕ_discrete 4 js)))

together_one : (j : ℕ) → j < 5 → together (j ∷ []) ≡ 1
unfolding occurrences ℕ_discrete
together_one zero h = refl
together_one (suc zero) h = refl
together_one (suc (suc zero)) h = refl
together_one (suc (suc (suc zero))) h = refl
together_one (suc (suc (suc (suc zero)))) h = refl
together_one (suc (suc (suc (suc (suc n))))) h = absurd (omega arith)

cmd_idx-lt : (cmd : ℕ) → cmd_idx cmd < 5
unfolding cmd_idx
cmd_idx-lt cmd = ground arith

together-cons : (j : ℕ) (js : List ℕ) → together (j ∷ js) ≡ together (j ∷ []) + together js
together-cons j js = omega (
  arith,
  occurrences-cons ℕ_discrete 0 j js,
  occurrences-cons ℕ_discrete 1 j js,
  occurrences-cons ℕ_discrete 2 j js,
  occurrences-cons ℕ_discrete 3 j js,
  occurrences-cons ℕ_discrete 4 j js,
)

-- Every call is of exactly one class: the counts of the five classes, over the list of the calls'
-- classes, add up to the number of calls.
pub classes_cover :
    (is : List (ℕ × ℕ))
    → occurrences ℕ_discrete 0 (map class is)
        + (occurrences ℕ_discrete 1 (map class is)
            + (occurrences ℕ_discrete 2 (map class is)
                + (occurrences ℕ_discrete 3 (map class is)
                    + occurrences ℕ_discrete 4 (map class is))))
      ≡ length is
unfolding occurrences
classes_cover [] = refl
classes_cover ((cpu, cmd) ∷ is) =
    let h = classes_cover is in
    together-cons (cmd_idx cmd) (map class is)
    ∙ rw (together_one (cmd_idx cmd) (cmd_idx-lt cmd)) (omega arith)
