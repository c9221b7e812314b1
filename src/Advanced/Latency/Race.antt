-- ===== src/Advanced/Latency/Race.antt =====
-- The update of an entry of `struct latency_stats` by the threads of one process on several CPUs. The
-- two additions are atomic; each of the tests of the minimum and the maximum is a read, and the store
-- behind it another step. The entry is in the map.
pub mod Totals
pub mod Extremes
pub mod Lost
use monsa_ebpf.Base.{
  ℕ, zero, suc, ◌+◌, ◌≡◌, ◌≢◌, refl, ap, List, [], ◌∷◌, Bool, true, false, if◌then◌else◌, ◌==◌, ltb,
  add64, arith,
}
use monsa_ebpf.Advanced.Latency.{LatencyStats}

-- Where a CPU stands in the update, with its latency: before it, before the addition to `total_ns`,
-- before the test or the store of the minimum, and before those of the maximum.
pub data Stage : Type 0 where
  idle : Stage
  totalling : ℕ → Stage
  min_testing : ℕ → Stage
  min_storing : ℕ → Stage
  max_testing : ℕ → Stage
  max_storing : ℕ → Stage

-- `begun` are the latencies of the updates that were begun, the latest first.
pub record LatencyRace : Type 0 where
  pub stats : LatencyStats
  pub stage : ℕ → Stage
  pub begun : List ℕ

abbrev pub set_stage : ℕ → Stage → (ℕ → Stage) → ℕ → Stage
set_stage cpu g stage c = if c == cpu then g else stage c

-- `__sync_fetch_and_add(&stats->count, 1)`
unfoldable pub add_count : ℕ → ℕ → LatencyRace → LatencyRace
add_count cpu l s = record {
  stats = record s.stats { count = add64 s.stats.count 1 };
  stage = set_stage cpu (totalling l) s.stage;
  begun = l ∷ s.begun;
}

-- `__sync_fetch_and_add(&stats->total_ns, latency_ns)`
unfoldable pub add_total : ℕ → ℕ → LatencyRace → LatencyRace
add_total cpu l s = record s {
  stats = record s.stats { total_ns = add64 s.stats.total_ns l };
  stage = set_stage cpu (min_testing l) s.stage;
}

-- `if (latency_ns < stats->min_ns)`, and the store.
unfoldable pub test_min : ℕ → ℕ → LatencyRace → LatencyRace
test_min cpu l s = record s {
  stage = set_stage cpu (if ltb l s.stats.min_ns then min_storing l else max_testing l) s.stage;
}

unfoldable pub store_min : ℕ → ℕ → LatencyRace → LatencyRace
store_min cpu l s = record s {
  stats = record s.stats { min_ns = l };
  stage = set_stage cpu (max_testing l) s.stage;
}

-- `if (latency_ns > stats->max_ns)`, and the store.
unfoldable pub test_max : ℕ → ℕ → LatencyRace → LatencyRace
test_max cpu l s = record s {
  stage = set_stage cpu (if ltb s.stats.max_ns l then max_storing l else idle) s.stage;
}

unfoldable pub store_max : ℕ → ℕ → LatencyRace → LatencyRace
store_max cpu l s = record s {
  stats = record s.stats { max_ns = l };
  stage = set_stage cpu idle s.stage;
}

-- The next step of a CPU; one that is before an update begins that of a latency.
unfoldable pub step_from : Stage → ℕ → ℕ → LatencyRace → LatencyRace
unfolding add_count add_total test_min store_min test_max store_max
step_from idle cpu l s = add_count cpu l s
step_from (totalling k) cpu l s = add_total cpu k s
step_from (min_testing k) cpu l s = test_min cpu k s
step_from (min_storing k) cpu l s = store_min cpu k s
step_from (max_testing k) cpu l s = test_max cpu k s
step_from (max_storing k) cpu l s = store_max cpu k s

-- A schedule of CPUs, each with the latency that it begins with if it is before an update.
unfoldable pub interleave : List (ℕ × ℕ) → LatencyRace → LatencyRace
unfolding step_from
interleave [] s = s
interleave ((cpu, l) ∷ more) s = interleave more (step_from (s.stage cpu) cpu l s)

-- Before any of the updates, with the statistics as they are.
abbrev pub quiet : LatencyStats → LatencyRace
quiet st = record { stats = st; stage = λ c. idle; begun = [] }

pub set_stage_other :
    (cpu c : ℕ) (g : Stage) (stage : ℕ → Stage) → c ≢ cpu → set_stage cpu g stage c ≡ stage c
set_stage_other cpu c g stage h = let e : (c == cpu) ≡ false = ground arith in rw e refl

pub set_stage_self : (cpu : ℕ) (g : Stage) (stage : ℕ → Stage) → set_stage cpu g stage cpu ≡ g
set_stage_self cpu g stage = let e : (cpu == cpu) ≡ true = ground arith in rw e refl

-- The next step, where the stage of the CPU is known.
pub interleave_at :
    (cpu l : ℕ) (more : List (ℕ × ℕ)) (s : LatencyRace) (g : Stage)
    → s.stage cpu ≡ g
    → interleave ((cpu, l) ∷ more) s ≡ interleave more (step_from g cpu l s)
unfolding interleave
interleave_at cpu l more s g at = ap (λ (h : Stage). interleave more (step_from h cpu l s)) at
