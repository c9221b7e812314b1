-- ===== src/Tests.antt =====
-- Runs of the programs on maps and rings in memory, and the theorems at concrete data.
mod Tracing
mod Network
mod Latencies
mod Basic
mod Loaders
mod Reports
mod Systems
mod Sessions
mod Races
use monsa_ebpf.Base.{ℕ, ◌+◌, ◌*◌, ◌^◌, ◌≡◌, List, [], ◌∷◌, replicate, ℕ_discrete}
use monsa_ebpf.Kernel.{Helpers, HashMap}
use monsa_ebpf.Kernel.Memory.{memory_map, memory_lru, Ring}

-- Process 7, thread 9, user 3, group 4.
abbrev env_at : ℕ → Helpers
env_at now = record {
  pid_tgid = 7 * 2 ^ 32 + 9;
  uid_gid = 4 * 2 ^ 32 + 3;
  cgroup_id = 11;
  ktime_ns = now;
  cpu = 0;
  comm = replicate 16 65;
}

-- Process 8, thread 8.
abbrev other_at : ℕ → Helpers
other_at now = record {
  pid_tgid = 8 * 2 ^ 32 + 8;
  uid_gid = 0;
  cgroup_id = 12;
  ktime_ns = now;
  cpu = 1;
  comm = replicate 16 66;
}

abbrev words : HashMap ℕ ℕ
words = memory_map ℕ_discrete 4

abbrev ring_of : {E : Type 0} → ℕ → E → Ring E
ring_of room old = record { items = []; open_count = 0; limit = room; stale = old }
