-- ===== src/Basic/PerCpu.antt =====
-- Counters in a per-CPU array, as the programs of S1-basic/examples keep them, and their sum over the
-- CPUs, as `print_stats` of the loaders reads it. The text is that of
-- S1-basic/examples/cgroup/cgroup_bpf.
pub mod Totals
pub use monsa_ebpf.Kernel.PerCpu.{
  PerCpuArray, IsPerCpuArray, memory_array, memory_array-IsPerCpuArray,
}
use mathlib.Core.Logic.{ite, if_pos, if_neg}
use monsa_ebpf.Base.{ℕ, zero, suc, ◌<◌, ◌≡◌, ◌≢◌, ◌⊎◌, inl, inr, arith, refl, ℕ_discrete}
use monsa_ebpf.Base.{Bool, true, false, Option, none, some, ltb, ◌&&◌, if◌then◌else◌, add64}

-- `bump`, on one CPU.
unfoldable pub bump : (A : PerCpuArray ℕ) → ℕ → ℕ → A.Map → A.Map
bump A cpu idx m = elim (A.lookup m cpu idx) [ none ↦ m | some c ↦ A.store m cpu idx (add64 c 1) ]

-- `values[i]`
unfoldable pub value : (A : PerCpuArray ℕ) → A.Map → ℕ → ℕ → ℕ
value A m idx i = elim (A.lookup m i idx) [ none ↦ 0 | some c ↦ c ]

-- `total` after the loop over `n` CPUs.
unfoldable pub total : (A : PerCpuArray ℕ) → A.Map → ℕ → ℕ → ℕ
unfolding value
total A m idx zero = 0
total A m idx (suc n) = add64 (total A m idx n) (value A m idx n)

-- `num_cpus`, and the sum that is printed for an index.
unfoldable pub num_cpus : ℕ → ℕ
num_cpus possible = if ltb 128 possible then 128 else possible

unfoldable pub printed_total : (A : PerCpuArray ℕ) → ℕ → A.Map → ℕ → ℕ
unfolding num_cpus
printed_total A possible m idx = total A m idx (num_cpus possible)
