-- ===== src/System/Counters.antt =====
-- The counters of programs that run under a loader do not depend on what the loader does.
use monsa_ebpf.Base.{ℕ, ◌<◌, ◌^◌, ◌≡◌, refl, ◌∙◌, ap, List, [], ◌∷◌, map, All, some, Bool, add64}
use monsa_ebpf.Kernel.{HashMap, IsHash}
use monsa_ebpf.Counting.{hit}
use monsa_ebpf.Counting
use monsa_ebpf.Counting.Trace
use monsa_ebpf.Counting.Trace.{occurrences}
use monsa_ebpf.Report.Print.{Line}
use monsa_ebpf.System.{Programs, System, Action, event, signal, turn, act, run}
use monsa_ebpf.System.Kept.{turn_at-keeps}

-- The keys that the runs of a schedule count.
abbrev pub keys : {I K : Type 0} → (I → K) → List (Action I) → List K
keys key [] = []
keys key (event i ∷ more) = key i ∷ keys key more
keys key (signal ∷ more) = keys key more
keys key (turn reply ∷ more) = keys key more

map_self : {K : Type 0} (ks : List K) → map (λ (k : K). k) ks ≡ ks
map_self [] = refl
map_self {K} (k ∷ ks) = ap (λ (js : List K). k ∷ js) (map_self ks)

module _ {E K : Type 0} (P : Programs E) (handler : E → List Line) (checked : Bool)
    (H : HashMap K ℕ) (counts : P.Maps → H.Map) (key : P.Input → K)
    (counts-fire : (i : P.Input) (m : P.Maps) → counts (P.fire i m) ≡ (hit H (counts m) (key i)).0)
    (counts-advance : (m : P.Maps) → counts (P.advance m) ≡ counts m) where
  abbrev count_key : K → H.Map → ℕ × H.Map
  count_key k m = (0, (hit H m k).0)

  counts-run :
      (schedule : List (Action P.Input)) (s : System E P.Maps)
      → counts (run P handler checked schedule s).maps
        ≡ Counting.run count_key (keys key schedule) (counts s.maps)
  unfolding run act Counting.run
  counts-run [] s = refl
  counts-run (event i ∷ more) s =
      counts-run more _ ∙ ap (Counting.run count_key (keys key more)) (counts-fire i s.maps)
  counts-run (signal ∷ more) s = counts-run more _
  counts-run (turn reply ∷ more) s =
      counts-run more _
      ∙ ap (Counting.run count_key (keys key more)) (
          turn_at-keeps P handler checked (λ m. counts m ≡ counts s.maps)
            (λ m same. counts-advance m ∙ same) s.place reply s refl)

  All-any : (ks : List K) → All (λ _. Unit {0}) ks
  All-any [] = tt
  All-any (k ∷ ks) = (tt, All-any ks)

  -- A counter that is present at a 64-bit value goes up by the number of runs for its key, modulo
  -- 2 ^ 64, whatever the loader does between them.
  pub lookup-system :
      (eq : Discrete K) (L : IsHash H) (schedule : List (Action P.Input)) (s : System E P.Maps)
      (k : K) (c : ℕ)
      → c < 2 ^ 64
      → H.lookup (counts s.maps) k ≡ some c
      → H.lookup (counts (run P handler checked schedule s).maps) k
        ≡ some (add64 c (occurrences eq k (keys key schedule)))
  lookup-system eq L schedule s k c bound h =
      ap (λ (m : H.Map). H.lookup m k) (counts-run schedule s)
      ∙ rw (map_self (keys key schedule)) at (
          Trace.lookup-run eq H L count_key (λ (m : H.Map). m) (λ (k : K). k) (λ _. Unit {0})
            (λ i s _. refl) (keys key schedule) (counts s.maps) k c (All-any (keys key schedule))
            bound h)
