-- ===== src/Advanced/Latency/Race/Lost.antt =====
-- A minimum that is lost between the test of one CPU and its store.
use monsa_ebpf.Base.{ℕ, ◌<◌, ◌≡◌, refl, List, [], ◌∷◌, true, ltb, arith}
use monsa_ebpf.Advanced.Latency.{LatencyStats}
use monsa_ebpf.Advanced.Latency.Race.{max_testing, step_from, interleave, quiet}

-- CPU 0 comes to its test, CPU 1 too, then CPU 0 stores, and then CPU 1.
abbrev pub overlap : ℕ → ℕ → List (ℕ × ℕ)
overlap l k = (0, l) ∷ (0, l) ∷ (0, l) ∷ (1, k) ∷ (1, k) ∷ (1, k) ∷ (0, l) ∷ (1, k) ∷ []

-- Of two latencies `l < k` below the stored minimum, the greater one can end as the minimum: both
-- CPUs are behind their store then.
pub minimum_lost :
    (l k : ℕ) (st : LatencyStats)
    → l < k
    → k < st.min_ns
    → let s = interleave (overlap l k) (quiet st) in
      (s.stats.min_ns ≡ k)
      × (s.begun ≡ k ∷ l ∷ [])
      × (s.stage 0 ≡ max_testing l)
      × (s.stage 1 ≡ max_testing k)
unfolding interleave step_from
minimum_lost l k st h b =
    let first : ltb l st.min_ns ≡ true = ground arith in
    let second : ltb k st.min_ns ≡ true = ground arith in
    rw (first, second) (refl, refl, refl, refl)
