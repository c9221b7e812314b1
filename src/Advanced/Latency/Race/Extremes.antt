-- ===== src/Advanced/Latency/Race/Extremes.antt =====
-- Minimum and maximum are always the latency of some call, or what was stored before, and never move
-- the wrong way from that.
use monsa_ebpf.Base.{
  ℕ, ◌≤◌, ◌≡◌, ◌⊎◌, inl, inr, refl, List, [], ◌∷◌, if◌then◌else◌, ◌==◌, ltb, Bool-cases, arith,
}
use monsa_ebpf.Advanced.Latency.{LatencyStats}
use monsa_ebpf.Advanced.Latency.Summary.{Any}
use monsa_ebpf.Advanced.Latency.Race.{
  Stage, idle, totalling, min_testing, min_storing, max_testing, max_storing, LatencyRace,
  set_stage, add_count, add_total, test_min, store_min, test_max, store_max, step_from, interleave,
  quiet,
}

-- A latency that a call has begun with.
abbrev pub IsBegun : ℕ → List ℕ → Type 0
IsBegun l begun = Any (λ x. x ≡ l) begun

module _ (least greatest : ℕ) where
  -- What a CPU holds is the latency of a call, and one about to be stored is on the right side.
  abbrev Holds : List ℕ → Stage → Type 0
  Holds begun idle = Unit
  Holds begun (totalling l) = IsBegun l begun
  Holds begun (min_testing l) = IsBegun l begun
  Holds begun (min_storing l) = IsBegun l begun × (l ≤ least)
  Holds begun (max_testing l) = IsBegun l begun
  Holds begun (max_storing l) = IsBegun l begun × (greatest ≤ l)

  Holds-more : (x : ℕ) (begun : List ℕ) (g : Stage) → Holds begun g → Holds (x ∷ begun) g
  Holds-more x begun idle h = tt
  Holds-more x begun (totalling l) h = inr h
  Holds-more x begun (min_testing l) h = inr h
  Holds-more x begun (min_storing l) (h, b) = (inr h, b)
  Holds-more x begun (max_testing l) h = inr h
  Holds-more x begun (max_storing l) (h, b) = (inr h, b)

  record Keeps (s : LatencyRace) : Type 0 where
    low : (s.stats.min_ns ≡ least) ⊎ IsBegun s.stats.min_ns s.begun
    low_le : s.stats.min_ns ≤ least
    high : (s.stats.max_ns ≡ greatest) ⊎ IsBegun s.stats.max_ns s.begun
    high_ge : greatest ≤ s.stats.max_ns
    held : (cpu : ℕ) → Holds s.begun (s.stage cpu)

  set_stage-Holds :
      (begun : List ℕ) (cpu : ℕ) (g : Stage) (stage : ℕ → Stage)
      → Holds begun g
      → ((c : ℕ) → Holds begun (stage c))
      → (c : ℕ) → Holds begun (set_stage cpu g stage c)
  set_stage-Holds begun cpu g stage h all c = elim (Bool-cases (c == cpu)) [
    | inl e ↦ rw e h
    | inr e ↦ rw e (all c)
  ]

  -- A step that only moves a CPU on.
  moved-Keeps :
      (s u : LatencyRace) (cpu : ℕ) (g : Stage)
      → u.stats.min_ns ≡ s.stats.min_ns
      → u.stats.max_ns ≡ s.stats.max_ns
      → u.begun ≡ s.begun
      → u.stage ≡ set_stage cpu g s.stage
      → Holds s.begun g
      → Keeps s
      → Keeps u
  moved-Keeps s u cpu g low high begun stage h v = record {
    low = rw (low, begun) v.low;
    low_le = rw low v.low_le;
    high = rw (high, begun) v.high;
    high_ge = rw high v.high_ge;
    held = rw (stage, begun) (set_stage-Holds s.begun cpu g s.stage h v.held);
  }

  tested_min :
      (k : ℕ) (s : LatencyRace)
      → IsBegun k s.begun
      → Keeps s
      → Holds s.begun (if ltb k s.stats.min_ns then min_storing k else max_testing k)
  tested_min k s h v = elim (Bool-cases (ltb k s.stats.min_ns)) [
    | inl e ↦ let small = v.low_le in rw e (h, ground arith)
    | inr e ↦ rw e h
  ]

  tested_max :
      (k : ℕ) (s : LatencyRace)
      → IsBegun k s.begun
      → Keeps s
      → Holds s.begun (if ltb s.stats.max_ns k then max_storing k else idle)
  tested_max k s h v = elim (Bool-cases (ltb s.stats.max_ns k)) [
    | inl e ↦ let small = v.high_ge in rw e (h, ground arith)
    | inr e ↦ rw e tt
  ]

  step_from-Keeps :
      (g : Stage) (cpu l : ℕ) (s : LatencyRace)
      → Holds s.begun g
      → Keeps s
      → Keeps (step_from g cpu l s)
  unfolding step_from add_count add_total test_min store_min test_max store_max
  step_from-Keeps idle cpu l s h v = record {
    low = elim v.low [ inl e ↦ inl e | inr b ↦ inr (inr b) ];
    low_le = v.low_le;
    high = elim v.high [ inl e ↦ inl e | inr b ↦ inr (inr b) ];
    high_ge = v.high_ge;
    held =
        set_stage-Holds (l ∷ s.begun) cpu (totalling l) s.stage (inl refl)
          (λ c. Holds-more l s.begun (s.stage c) (v.held c));
  }
  step_from-Keeps (totalling k) cpu l s h v =
      moved-Keeps s _ cpu (min_testing k) refl refl refl refl h v
  step_from-Keeps (min_testing k) cpu l s h v =
      moved-Keeps s _ cpu _ refl refl refl refl (tested_min k s h v) v
  step_from-Keeps (min_storing k) cpu l s (h, small) v = record {
    low = inr h;
    low_le = small;
    high = v.high;
    high_ge = v.high_ge;
    held = set_stage-Holds s.begun cpu (max_testing k) s.stage h v.held;
  }
  step_from-Keeps (max_testing k) cpu l s h v =
      moved-Keeps s _ cpu _ refl refl refl refl (tested_max k s h v) v
  step_from-Keeps (max_storing k) cpu l s (h, great) v = record {
    low = v.low;
    low_le = v.low_le;
    high = inr h;
    high_ge = great;
    held = set_stage-Holds s.begun cpu idle s.stage tt v.held;
  }

  interleave-Keeps :
      (schedule : List (ℕ × ℕ)) (s : LatencyRace) → Keeps s → Keeps (interleave schedule s)
  unfolding interleave
  interleave-Keeps [] s v = v
  interleave-Keeps ((cpu, l) ∷ more) s v =
      interleave-Keeps more _ (step_from-Keeps (s.stage cpu) cpu l s (v.held cpu) v)

-- After any schedule, and at any point of it: the minimum is the one of before or the latency of a
-- call, and not above that of before; and the maximum likewise, and not below.
pub extremes_are_latencies :
    (st : LatencyStats) (schedule : List (ℕ × ℕ))
    → let s = interleave schedule (quiet st) in
      ((s.stats.min_ns ≡ st.min_ns) ⊎ IsBegun s.stats.min_ns s.begun)
      × (s.stats.min_ns ≤ st.min_ns)
      × ((s.stats.max_ns ≡ st.max_ns) ⊎ IsBegun s.stats.max_ns s.begun)
      × (st.max_ns ≤ s.stats.max_ns)
extremes_are_latencies st schedule =
    let v = interleave-Keeps st.min_ns st.max_ns schedule (quiet st) (record {
      low = inl refl;
      low_le = omega arith;
      high = inl refl;
      high_ge = omega arith;
      held = λ cpu. tt;
    }) in
    (v.low, v.low_le, v.high, v.high_ge)
