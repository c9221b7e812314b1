-- ===== src/Counting/Trace.antt =====
-- Counting over any sequence of runs: what the counter of one key holds at the end.
use mathlib.Core.List.{map}
use mathlib.Core.Logic.{ite, if_pos, if_neg}
use monsa_ebpf.Base.{ℕ, suc, ◌+◌, ◌<◌, ◌^◌, ◌≡◌, ◌≢◌, refl, ap, ◌∙◌, arith, some}
use monsa_ebpf.Base.{List, [], ◌∷◌, add64, add64-lt, add64-add64, add64_eq, All}
use monsa_ebpf.Kernel.{HashMap, IsHash}
use monsa_ebpf.Counting.{hit, run}
use monsa_ebpf.Counting.Map.{hit_present, hit_other}

unfoldable pub occurrences : {K : Type 0} → Discrete K → K → List K → ℕ
occurrences eq k [] = 0
occurrences eq k (j ∷ js) = ite (eq j k) (suc (occurrences eq k js)) (occurrences eq k js)

pub occurrences_same :
    {K : Type 0} (eq : Discrete K) (k j : K) (js : List K)
    → j ≡ k
    → occurrences eq k (j ∷ js) ≡ suc (occurrences eq k js)
unfolding occurrences
occurrences_same eq k j js p = rw (if_pos _ p)

pub occurrences_other :
    {K : Type 0} (eq : Discrete K) (k j : K) (js : List K)
    → j ≢ k
    → occurrences eq k (j ∷ js) ≡ occurrences eq k js
unfolding occurrences
occurrences_other eq k j js p = rw (if_neg _ p)

pub occurrences_nil : {K : Type 0} (eq : Discrete K) (k : K) → occurrences eq k [] ≡ 0
unfolding occurrences
occurrences_nil eq k = refl

pub occurrences-cons :
    {K : Type 0} (eq : Discrete K) (k j : K) (js : List K)
    → occurrences eq k (j ∷ js) ≡ occurrences eq k (j ∷ []) + occurrences eq k js
occurrences-cons eq k j js = elim (eq j k) [
  | yes p ↦
      omega
        (arith, occurrences_same eq k j js p, occurrences_same eq k j [] p, occurrences_nil eq k)
  | no p ↦
      omega
        (arith, occurrences_other eq k j js p, occurrences_other eq k j [] p, occurrences_nil eq k)
]

-- A program whose every accepted run makes one counter update.
module _ {K I S : Type 0} (eq : Discrete K) (H : HashMap K ℕ) (L : IsHash H)
    (program : I → S → ℕ × S) (counts : S → H.Map) (key : I → K) (Accepted : I → Type 0)
    (step : (i : I) (s : S)
      → Accepted i
      → counts (program i s).1 ≡ (hit H (counts s) (key i)).0) where
  -- A present counter ends at its old value plus the number of runs for its key, modulo 2 ^ 64.
  pub lookup-run :
      (is : List I) (s : S) (k : K) (c : ℕ)
      → All Accepted is
      → c < 2 ^ 64
      → H.lookup (counts s) k ≡ some c
      → H.lookup (counts (run program is s)) k ≡ some (add64 c (occurrences eq k (map key is)))
  unfolding run occurrences
  lookup-run [] s k c ok bound h = h ∙ ap some (omega (arith, add64_eq c 0))
  lookup-run (i ∷ is) s k c (ok, oks) bound h = elim (eq (key i) k) [
    | yes p ↦ rw (if_pos _ p) (
        lookup-run is _ k (add64 c 1) oks (add64-lt c 1)
          (rw (step i s ok, p) (hit_present H L (counts s) k c h).0)
        ∙ ap some (add64-add64 c 1 _ ∙ ap (add64 c) (omega arith)))
    | no p ↦ rw (if_neg _ p) (
        lookup-run is _ k c oks bound (rw (step i s ok) (hit_other H L (counts s) (key i) k p ∙ h)))
  ]
