-- ===== src/Basic/PerCpu/Totals.antt =====
-- What `print_stats` reads after any sequence of bumps on any CPUs.
use monsa_ebpf.Base.{
  ℕ, zero, suc, ◌^◌, ◌<◌, ◌≤◌, ◌≡◌, ◌≢◌, ◌⊎◌, inl, inr, refl, ap, sym, ◌∙◌, arith,
}
use monsa_ebpf.Base.{
  none, List, [], ◌∷◌, map, All, add64, add64-lt, add64-add64, add64_eq, ℕ_discrete,
}
use monsa_ebpf.Base.{Option-cases}
use monsa_ebpf.Counting.{run}
use monsa_ebpf.Counting.Trace.{
  occurrences, occurrences-cons, occurrences_same, occurrences_other, occurrences_nil,
}
use monsa_ebpf.Basic.PerCpu.{PerCpuArray, IsPerCpuArray, bump, value, total}

module _ (A : PerCpuArray ℕ) {cpus entries : ℕ} (L : IsPerCpuArray A cpus entries) where
  module _ (m : A.Map) (cpu idx : ℕ) where
    value-bump_other :
        (i j : ℕ) → (cpu ≢ i) ⊎ (idx ≢ j) → value A (bump A cpu idx m) j i ≡ value A m j i
    unfolding value bump
    value-bump_other i j h = elim (Option-cases (A.lookup m cpu idx)) [
      | inl e ↦ ground arith
      | inr (c, e) ↦ ground (arith, L.lookup-store_other m cpu idx (add64 c 1) i j h)
    ]

    value-bump_self :
        cpu < cpus
        → idx < entries
        → value A (bump A cpu idx m) idx cpu ≡ add64 (value A m idx cpu) 1
    unfolding value bump
    value-bump_self p q =
        let (c, e) = L.lookup_slot m cpu idx p q in
        ground
          (arith, L.lookup-store_self m cpu idx (add64 c 1) (λ (n : A.lookup m cpu idx ≡ none). cc))

    total-bump_other :
        (j n : ℕ) → (n ≤ cpu) ⊎ (idx ≢ j) → total A (bump A cpu idx m) j n ≡ total A m j n
    unfolding total
    total-bump_other j zero h = refl
    total-bump_other j (suc n) h =
        rw (total-bump_other j n (ground arith), value-bump_other n j (ground arith))

    -- A bump on one of the CPUs that are summed raises the sum by one.
    total-bump_self :
        (n : ℕ)
        → cpu < cpus
        → idx < entries
        → cpu < n
        → total A (bump A cpu idx m) idx n ≡ add64 (total A m idx n) 1
    unfolding total add64
    total-bump_self zero p q h = elim h [ ]
    total-bump_self (suc n) p q h = elim (ℕ_discrete cpu n) [
      | yes same ↦
          let old = total-bump_other idx n (inl (omega arith)) in
          let new : value A (bump A cpu idx m) idx n ≡ add64 (value A m idx n) 1 =
            ap (value A (bump A cpu idx m) idx) (sym same)
            ∙ value-bump_self p q
            ∙ ap (λ i. add64 (value A m idx i) 1) same in
          omega (arith, old, new)
      | no other ↦
          let one = total-bump_self n p q (omega arith) in
          let rest = value-bump_other n idx (inl other) in omega (arith, one, rest)
    ]

  total_word : (m : A.Map) (j n : ℕ) → total A m j n < 2 ^ 64
  unfolding total
  total_word m j zero = omega arith
  total_word m j (suc n) = add64-lt _ _

  -- A program that bumps one index of the array, on the CPU it runs on.
  module _ {I : Type 0} (program : I → A.Map → ℕ × A.Map) (cpu class : I → ℕ)
      (step : (i : I) (m : A.Map) → (program i m).1 ≡ bump A (cpu i) (class i) m) where
    total-step :
        (i : I) (m : A.Map) (j n : ℕ)
        → cpu i < cpus
        → j < entries
        → cpu i < n
        → total A (program i m).1 j n
          ≡ add64 (total A m j n) (occurrences ℕ_discrete j (class i ∷ []))
    total-step i m j n on index here = elim (ℕ_discrete (class i) j) [
      | yes same ↦
          ap (λ m'. total A m' j n) (step i m ∙ ap (λ k. bump A (cpu i) k m) same)
          ∙ total-bump_self m (cpu i) j n on index here
          ∙ ap (add64 (total A m j n)) (
              omega (
                arith,
                occurrences_same ℕ_discrete j (class i) [] same,
                occurrences_nil ℕ_discrete j,
              ))
      | no other ↦
          let word = total_word m j n in
          let keep : total A m j n ≡ add64 (total A m j n) 0 =
            omega (arith, add64_eq (total A m j n) 0) in
          let nothing : 0 ≡ occurrences ℕ_discrete j (class i ∷ []) = omega (
            arith,
            occurrences_other ℕ_discrete j (class i) [] other,
            occurrences_nil ℕ_discrete j,
          ) in
          ap (λ m'. total A m' j n) (step i m)
          ∙ total-bump_other m (cpu i) (class i) j n (inr other)
          ∙ keep
          ∙ ap (add64 (total A m j n)) nothing
    ]

    -- The sum over `n` CPUs goes up by the number of runs on them that have the index.
    pub total-run :
        (is : List I) (m : A.Map) (j n : ℕ)
        → n ≤ cpus
        → j < entries
        → All (λ i. cpu i < n) is
        → total A (run program is m) j n
          ≡ add64 (total A m j n) (occurrences ℕ_discrete j (map class is))
    unfolding run
    total-run [] m j n fits index on =
        let word = total_word m j n in
        omega (arith, add64_eq (total A m j n) 0)
        ∙ ap (add64 (total A m j n)) (sym (occurrences_nil ℕ_discrete j))
    total-run (i ∷ is) m j n fits index (here, on) =
        total-run is _ j n fits index on
        ∙ ap (λ t. add64 t (occurrences ℕ_discrete j (map class is)))
            (total-step i m j n (omega arith) index here)
        ∙ add64-add64 (total A m j n) _ _
        ∙ ap (add64 (total A m j n)) (sym (occurrences-cons ℕ_discrete j (class i) (map class is)))
