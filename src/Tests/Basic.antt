-- ===== src/Tests/Basic.antt =====
-- The programs of S1-basic/examples on concrete runs.
use monsa_ebpf.Base.{ℕ, ◌≡◌, arith, List, [], ◌∷◌}
use monsa_ebpf.Base.{ℕ_discrete, add64}
use monsa_ebpf.Counting.{run}
use monsa_ebpf.Counting.Trace.{occurrences}
use monsa_ebpf.Kernel.PerCpu.{slot}
use monsa_ebpf.Basic.PerCpu.{
  num_cpus, total, value, printed_total, memory_array, memory_array-IsPerCpuArray,
}
use monsa_ebpf.Basic.Classes.{msb_lsm_bpf, cmd_idx}
use monsa_ebpf.Basic.Classes.Commands.{printed_total-run}

-- On two CPUs: two loads, a map, and a command that has no counter of its own.
abbrev commands : List (ℕ × ℕ)
commands = (0, 5) ∷ (1, 0) ∷ (1, 5) ∷ (0, 77) ∷ []

abbrev zeros : ℕ → ℕ → ℕ
zeros cpu idx = 0

printed_total-run_example :
    printed_total (memory_array 2 5) 2 (run (msb_lsm_bpf (memory_array 2 5)) commands zeros) 0 ≡ 2
unfolding printed_total num_cpus total value slot occurrences cmd_idx add64 ℕ_discrete
printed_total-run_example =
    printed_total-run (memory_array 2 5) 2 (memory_array-IsPerCpuArray 2 5) commands zeros 0
      (omega arith) (omega arith, (omega arith, (omega arith, (omega arith, tt))))
