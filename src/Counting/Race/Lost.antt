-- ===== src/Counting/Race/Lost.antt =====
-- First updates of a key at the same time.
use monsa_ebpf.Base.{
  ◌⊎◌, inr, inl, length, ℕ, ◌+◌, ◌≡◌, ◌≢◌, refl, ◌∙◌, List, [], ◌∷◌, ◌++◌, none, some, true, false,
  ◌==◌, arith,
}
use mathlib.Core.Path.{subst}
use monsa_ebpf.Counting.Race.{
  Phase, idle, missed, Race, set_phase, insert_one, take_step, interleave, look_absent,
  insert_missed,
}

abbrev pub IsAmong : ℕ → List ℕ → Type 0
IsAmong c [] = ⊥
IsAmong c (d ∷ ds) = (c ≡ d) ⊎ IsAmong c ds

-- No CPU is listed twice.
abbrev pub IsDistinct : List ℕ → Type 0
IsDistinct [] = Unit
IsDistinct (c ∷ cs) = ¬ (IsAmong c cs) × IsDistinct cs

IsAmong-ne : (c d : ℕ) (cs : List ℕ) → ¬ (IsAmong d cs) → IsAmong c cs → c ≢ d
IsAmong-ne c d cs h p e = h (subst (λ x. IsAmong x cs) e p)

interleave-append :
    (xs ys : List ℕ) (s : Race) → interleave (xs ++ ys) s ≡ interleave ys (interleave xs s)
unfolding interleave
interleave-append [] ys s = refl
interleave-append (x ∷ xs) ys s = interleave-append xs ys (take_step s x)

set_phase-ne :
    (cpu c : ℕ) (p : Phase) (phase : ℕ → Phase) → c ≢ cpu → set_phase cpu p phase c ≡ phase c
set_phase-ne cpu c p phase h = let e : (c == cpu) ≡ false = ground arith in rw e refl

set_phase_self : (cpu c : ℕ) (p : Phase) (phase : ℕ → Phase) → c ≡ cpu → set_phase cpu p phase c ≡ p
set_phase_self cpu c p phase h = let e : (c == cpu) ≡ true = ground arith in rw e refl

-- What the CPUs leave that look one after the other while the key is not there.
all_look :
    (cs : List ℕ) (s : Race)
    → IsDistinct cs
    → s.value ≡ none
    → ((c : ℕ) → IsAmong c cs → s.phase c ≡ idle)
    → ((interleave cs s).value ≡ none)
      × ((interleave cs s).completed ≡ s.completed)
      × ((c : ℕ) → IsAmong c cs → (interleave cs s).phase c ≡ missed)
      × ((c : ℕ) → ¬ (IsAmong c cs) → (interleave cs s).phase c ≡ s.phase c)
unfolding interleave
all_look [] s distinct e idle_at = (e, refl, λ c h. elim h [ ], λ c h. refl)
all_look (n ∷ cs) s (fresh, distinct) e idle_at =
    let t = record s { phase = set_phase n missed s.phase } in
    let step : take_step s n ≡ t = look_absent s n e (idle_at n (inl refl)) in
    let (value, done, among, others) =
      all_look cs t distinct e
        (λ c h. set_phase-ne n c missed s.phase (IsAmong-ne c n cs fresh h) ∙ idle_at c (inr h)) in
    rw (step, interleave)
      (
        value,
        done,
        λ c h. elim h [
          | inl same ↦
              others c (λ p. fresh (subst (λ x. IsAmong x cs) same p))
              ∙ set_phase_self n c missed s.phase same
          | inr p ↦ among c p
        ],
        λ c h. others c (λ p. h (inr p)) ∙ set_phase-ne n c missed s.phase (λ same. h (inl same)),
      )

-- And those that insert the value one after one of them has.
all_insert :
    (cs : List ℕ) (s : Race)
    → IsDistinct cs
    → s.value ≡ some 1
    → ((c : ℕ) → IsAmong c cs → s.phase c ≡ missed)
    → ((interleave cs s).value ≡ some 1) × ((interleave cs s).completed ≡ s.completed + length cs)
unfolding interleave insert_one
all_insert [] s distinct e missed_at = (e, omega arith)
all_insert (n ∷ cs) s (fresh, distinct) e missed_at =
    let (value, done) =
      all_insert cs (insert_one n s) distinct refl
        (λ c h. set_phase-ne n c idle s.phase (IsAmong-ne c n cs fresh h) ∙ missed_at c (inr h)) in
    rw (insert_missed s n (missed_at n (inl refl)), interleave) (value, omega (arith, done))

-- CPUs before their updates look for a key that is not in the map, each once and in any order; then
-- some of them take their next steps, each once and in any order: each of these completes its update,
-- and however many they are, the counter is one.
pub lost_updates :
    (looks : List ℕ) (c : ℕ) (others : List ℕ) (s : Race)
    → IsDistinct looks
    → IsDistinct (c ∷ others)
    → ((d : ℕ) → IsAmong d (c ∷ others) → IsAmong d looks)
    → s.value ≡ none
    → ((d : ℕ) → IsAmong d looks → s.phase d ≡ idle)
    → let t = interleave (looks ++ c ∷ others) s in
      (t.completed ≡ s.completed + length (c ∷ others)) × (t.value ≡ some 1)
unfolding insert_one interleave
lost_updates looks c others s distinct (fresh, rest) within absent idle_at =
    let t = interleave looks s in
    let (value, done, among, elsewhere) = all_look looks s distinct absent idle_at in
    let at_c : t.phase c ≡ missed = among c (within c (inl refl)) in
    let (value', done') = all_insert others (insert_one c t) rest refl (λ d h.
      set_phase-ne c d idle t.phase (IsAmong-ne d c others fresh h) ∙ among d (within d (inr h))) in
    rw (interleave-append looks (c ∷ others) s, interleave, insert_missed t c at_c)
      (omega (arith, done, done'), value')
