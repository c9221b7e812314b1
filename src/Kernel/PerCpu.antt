-- ===== src/Kernel/PerCpu.antt =====
-- Arrays with a slot for each CPU, and one in memory.
use mathlib.Core.Logic.{ite}
use monsa_ebpf.Base.{
  ℕ, ◌<◌, ◌≡◌, ◌≢◌, ◌⊎◌, arith, ℕ_discrete, Option, none, some, ltb, ◌&&◌, if◌then◌else◌,
}

-- `BPF_MAP_TYPE_PERCPU_ARRAY`: each CPU has its own slot for an index.
pub record PerCpuArray (V : Type 0) : Type 1 where
  pub Map : Type 0
  pub lookup : Map → ℕ → ℕ → Option V  -- CPU, index
  pub store : Map → ℕ → ℕ → V → Map

-- Every slot of the array exists from the start, and a store changes one slot.
pub record IsPerCpuArray {V : Type 0} (A : PerCpuArray V) (cpus entries : ℕ) : Type 0 where
  pub lookup_slot :
      (m : A.Map) (cpu idx : ℕ)
      → cpu < cpus
      → idx < entries
      → (c : V) × (A.lookup m cpu idx ≡ some c)
  pub lookup-store_self :
      (m : A.Map) (cpu idx : ℕ) (v : V)
      → A.lookup m cpu idx ≢ none
      → A.lookup (A.store m cpu idx v) cpu idx ≡ some v
  pub lookup-store_other :
      (m : A.Map) (cpu idx : ℕ) (v : V) (i j : ℕ)
      → (cpu ≢ i) ⊎ (idx ≢ j)
      → A.lookup (A.store m cpu idx v) i j ≡ A.lookup m i j

module _ {V : Type 0} where
  unfoldable pub slot : ℕ → ℕ → (ℕ → ℕ → V) → ℕ → ℕ → Option V
  slot cpus entries m cpu idx = if ltb cpu cpus && ltb idx entries then some (m cpu idx) else none

  unfoldable pub write : (ℕ → ℕ → V) → ℕ → ℕ → V → ℕ → ℕ → V
  write m cpu idx v i j = ite (ℕ_discrete cpu i) (ite (ℕ_discrete idx j) v (m i j)) (m i j)

  abbrev pub memory_array : ℕ → ℕ → PerCpuArray V
  memory_array cpus entries = record { Map = ℕ → ℕ → V; lookup = slot cpus entries; store = write }

  slot-write_self :
      (cpus entries : ℕ) (m : ℕ → ℕ → V) (cpu idx : ℕ) (v : V)
      → slot cpus entries m cpu idx ≢ none
      → slot cpus entries (write m cpu idx v) cpu idx ≡ some v
  unfolding slot write
  slot-write_self cpus entries m cpu idx v h = ground arith

  write_other :
      (m : ℕ → ℕ → V) (cpu idx : ℕ) (v : V) (i j : ℕ)
      → (cpu ≢ i) ⊎ (idx ≢ j)
      → write m cpu idx v i j ≡ m i j
  unfolding write
  write_other m cpu idx v i j h = ground arith

  slot-write_other :
      (cpus entries : ℕ) (m : ℕ → ℕ → V) (cpu idx : ℕ) (v : V) (i j : ℕ)
      → (cpu ≢ i) ⊎ (idx ≢ j)
      → slot cpus entries (write m cpu idx v) i j ≡ slot cpus entries m i j
  unfolding slot
  slot-write_other cpus entries m cpu idx v i j h = rw (write_other m cpu idx v i j h)

  slot_present :
      (cpus entries : ℕ) (m : ℕ → ℕ → V) (cpu idx : ℕ)
      → cpu < cpus
      → idx < entries
      → slot cpus entries m cpu idx ≡ some (m cpu idx)
  unfolding slot
  slot_present cpus entries m cpu idx p q = ground arith

  pub memory_array-IsPerCpuArray :
      (cpus entries : ℕ) → IsPerCpuArray (memory_array cpus entries) cpus entries
  memory_array-IsPerCpuArray cpus entries = record {
    lookup_slot = λ m cpu idx p q. (m cpu idx, slot_present cpus entries m cpu idx p q);
    lookup-store_self = slot-write_self cpus entries;
    lookup-store_other = slot-write_other cpus entries;
  }
