-- ===== src/Report/Maps/Buffers.antt =====
-- The variables that user space hands to `bpf_map_lookup_elem` for an element of a per-CPU map: the
-- call writes eight bytes for each possible CPU, and knows nothing of the size of the variable.
use monsa_ebpf.Base.{
  ℕ, zero, suc, ◌<◌, ◌≡◌, refl, ◌∙◌, ap, List, [], ◌∷◌, Option, none, some, if◌then◌else◌, ltb,
  Bool-cases, inl, inr, add64, String, arith,
}
use monsa_ebpf.Basic.PerCpu.{PerCpuArray, IsPerCpuArray, value, total, num_cpus, printed_total}
use monsa_ebpf.Report.Print.{Line}
use monsa_ebpf.Report.Maps.{named_line, print_total}

-- A failed call, a write past the variable, or the values of the possible CPUs.
pub data Read : Type 0 where
  absent : Read
  overrun : Read
  filled : (ℕ → ℕ) → Read

-- The call with a variable of `room` elements.
unfoldable pub read_element : (A : PerCpuArray ℕ) → ℕ → ℕ → A.Map → ℕ → Read
unfolding value
read_element A possible room m idx = elim (A.lookup m 0 idx) [
  | none ↦ absent
  | some v ↦ if ltb room possible then overrun else filled (value A m idx)
]

-- `print_stats` of cgroup_sock_addr, from a key on: one `__u64 value` for the call. `none` is a write
-- past it.
unfoldable pub print_values :
    (A : PerCpuArray ℕ) → ℕ → A.Map → String → ℕ → List String → Option (List Line)
unfolding read_element named_line
print_values A possible m format key [] = some []
print_values A possible m format key (label ∷ labels) =
    let rest = print_values A possible m format (suc key) labels in
    elim (read_element A possible 1 m key) [
      | absent ↦ rest
      | overrun ↦ none
      | filled values ↦ elim rest [
        | none ↦ none
        | some lines ↦ some (named_line format label (values 0) ∷ lines)
      ]
    ]

abbrev pub counts_format : String
counts_format = "%s count = %llu\n"

unfoldable pub cgroup_sock_addr_print_stats : (A : PerCpuArray ℕ) → ℕ → A.Map → Option (List Line)
unfolding print_values
cgroup_sock_addr_print_stats A possible m =
    print_values A possible m counts_format 0 ("connect" ∷ "bind" ∷ "sendmsg" ∷ [])

-- `total += values[i]` over the first `n` values.
unfoldable pub sum_values : (ℕ → ℕ) → ℕ → ℕ
sum_values values zero = 0
sum_values values (suc n) = add64 (sum_values values n) (values n)

-- The print of a sum with its variable, `__u64 values[128]`.
unfoldable pub print_sum : (A : PerCpuArray ℕ) → ℕ → A.Map → (ℕ → Line) → ℕ → Option (List Line)
unfolding read_element sum_values num_cpus
print_sum A possible m line idx = elim (read_element A possible 128 m idx) [
  | absent ↦ some []
  | overrun ↦ none
  | filled values ↦ some (line (sum_values values (num_cpus possible)) ∷ [])
]

module _ (A : PerCpuArray ℕ) (possible entries : ℕ) (L : IsPerCpuArray A possible entries) where
  read_there :
      (room : ℕ) (m : A.Map) (idx : ℕ)
      → 0 < possible
      → idx < entries
      → read_element A possible room m idx
        ≡ (if ltb room possible then overrun else filled (value A m idx))
  unfolding read_element
  read_there room m idx some_cpu small =
      let (c, e) = L.lookup_slot m 0 idx some_cpu small in rw (e, read_element) refl

  sum_values-total : (m : A.Map) (idx n : ℕ) → sum_values (value A m idx) n ≡ total A m idx n
  unfolding sum_values total
  sum_values-total m idx zero = refl
  sum_values-total m idx (suc n) = ap (λ t. add64 t (value A m idx n)) (sum_values-total m idx n)

  print_total_there :
      (m : A.Map) (line : ℕ → Line) (idx : ℕ)
      → 0 < possible
      → idx < entries
      → print_total A possible m line idx ≡ line (printed_total A possible m idx) ∷ []
  unfolding print_total
  print_total_there m line idx some_cpu small =
      let (c, e) = L.lookup_slot m 0 idx some_cpu small in rw (e, print_total) refl

  -- A loader with a variable of 128 elements: with at most 128 possible CPUs it prints the sum over
  -- all of them; with more, the call writes past the variable.
  pub print_sum_fits :
      (m : A.Map) (line : ℕ → Line) (idx : ℕ)
      → 0 < possible
      → idx < entries
      → print_sum A possible m line idx
        ≡ (if ltb 128 possible then none else some (line (total A m idx possible) ∷ []))
  unfolding print_sum
  print_sum_fits m line idx some_cpu small =
      let there = read_there 128 m idx some_cpu small in
      elim (Bool-cases (ltb 128 possible)) [
        | inl e ↦ rw (there, print_sum, e) refl
        | inr e ↦
            let all : num_cpus possible ≡ possible = rw (num_cpus, e) refl in
            rw (there, print_sum, e)
              (ap (λ (n : ℕ). some (line (sum_values (value A m idx) n) ∷ [])) all
                ∙ ap (λ (n : ℕ). some (line n ∷ [])) (sum_values-total m idx possible))
      ]

module _ (A : PerCpuArray ℕ) (possible : ℕ) (m : A.Map) (format : String) (key : ℕ) (label : String)
    (labels : List String) where
  print_values_overrun :
      read_element A possible 1 m key ≡ overrun
      → print_values A possible m format key (label ∷ labels) ≡ none
  unfolding print_values
  print_values_overrun e = rw (e, print_values) refl

  print_values_filled :
      (values : ℕ → ℕ) (lines : List Line)
      → read_element A possible 1 m key ≡ filled values
      → print_values A possible m format (suc key) labels ≡ some lines
      → print_values A possible m format key (label ∷ labels)
        ≡ some (named_line format label (values 0) ∷ lines)
  unfolding print_values
  print_values_filled values lines e rest = rw (e, print_values) (rw rest refl)

-- `print_stats` of cgroup_sock_addr, whose variable has one element: on a machine with one possible
-- CPU it prints the three counters; with more, the call writes past the variable.
pub cgroup_sock_addr_overruns :
    (A : PerCpuArray ℕ) (possible : ℕ) (L : IsPerCpuArray A possible 3) (m : A.Map)
    → 0 < possible
    → cgroup_sock_addr_print_stats A possible m ≡ (
        if ltb 1 possible
        then none
        else some (
            named_line counts_format "connect" (value A m 0 0)
            ∷ named_line counts_format "bind" (value A m 1 0)
            ∷ named_line counts_format "sendmsg" (value A m 2 0)
            ∷ []))
unfolding cgroup_sock_addr_print_stats print_values
cgroup_sock_addr_overruns A possible L m some_cpu =
    let there = λ (idx : ℕ) (small : idx < 3). read_there A possible 3 L 1 m idx some_cpu small in
    elim (Bool-cases (ltb 1 possible)) [
      | inl e ↦ rw e (
          print_values_overrun A possible m counts_format 0 "connect" ("bind" ∷ "sendmsg" ∷ [])
            (there 0 (omega arith) ∙ rw e refl))
      | inr e ↦
          let one = λ (idx : ℕ) (small : idx < 3).
            let read : read_element A possible 1 m idx ≡ filled (value A m idx) =
              there idx small ∙ rw e refl in
            read in
          rw e (
            print_values_filled A possible m counts_format 0 "connect" ("bind" ∷ "sendmsg" ∷ [])
              (value A m 0) _ (one 0 (omega arith))
              (print_values_filled A possible m counts_format 1 "bind" ("sendmsg" ∷ [])
                (value A m 1) _ (one 1 (omega arith))
                (print_values_filled A possible m counts_format 2 "sendmsg" [] (value A m 2) _
                  (one 2 (omega arith)) refl)))
    ]
