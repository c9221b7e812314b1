-- ===== src/Counting/Race.antt =====
-- The counter update on several CPUs at the same time. Lookup, insertion and addition are each one
-- step of the kernel, but another CPU may come between them: the element that a lookup found may
-- have been replaced when the addition reaches it, and `BPF_ANY` replaces whatever is there.
pub mod Exact
pub mod Bounds
pub mod Lost
use monsa_ebpf.Base.{
  ℕ, zero, suc, ◌+◌, ◌<◌, ◌≤◌, ◌^◌, ◌≡◌, ◌⊎◌, ◌≢◌, refl, ◌∙◌, ap, sym, List, [], ◌∷◌, ◌++◌, Option,
  none, some, Bool, true, false, if◌then◌else◌, ◌==◌, ==_iff, Bool-cases, dec_lt, inl, inr, add64,
  add64-lt, arith,
}

-- Where a CPU stands in the update: before it, behind a lookup that found nothing, or with a pointer
-- to the element that it found.
pub data Phase : Type 0 where
  idle : Phase
  missed : Phase
  found : ℕ → Phase

-- The entry of one key, with a number for each element that it ever had; the CPUs; and how many
-- updates were completed.
pub record Race : Type 0 where
  pub element : ℕ
  pub value : Option ℕ
  pub phase : ℕ → Phase
  pub completed : ℕ

abbrev pub set_phase : ℕ → Phase → (ℕ → Phase) → ℕ → Phase
set_phase cpu p phase c = if c == cpu then p else phase c

-- `bpf_map_lookup_elem`, by what the map holds.
unfoldable pub look : Option ℕ → ℕ → Race → Race
look none cpu s = record s { phase = set_phase cpu missed s.phase }
look (some v) cpu s = record s { phase = set_phase cpu (found s.element) s.phase }

-- `bpf_map_update_elem(..., &one, BPF_ANY)`: a new element in place of any old one.
unfoldable pub insert_one : ℕ → Race → Race
insert_one cpu s = record {
  element = suc s.element;
  value = some 1;
  phase = set_phase cpu idle s.phase;
  completed = s.completed + 1;
}

abbrev pub add_to : Option ℕ → Option ℕ
add_to none = none
add_to (some v) = some (add64 v 1)

-- `__sync_fetch_and_add(val, 1)`: on the entry's element, or on one that is no longer in the map.
unfoldable pub add_one : ℕ → ℕ → Race → Race
add_one cpu e s = record s {
  value = if e == s.element then add_to s.value else s.value;
  phase = set_phase cpu idle s.phase;
  completed = s.completed + 1;
}

-- The next step of a CPU, by its phase, and the steps of a schedule.
unfoldable pub step_from : Phase → ℕ → Race → Race
unfolding look insert_one add_one
step_from idle cpu s = look s.value cpu s
step_from missed cpu s = insert_one cpu s
step_from (found e) cpu s = add_one cpu e s

unfoldable pub take_step : Race → ℕ → Race
unfolding step_from
take_step s cpu = step_from (s.phase cpu) cpu s

unfoldable pub interleave : List ℕ → Race → Race
unfolding take_step
interleave [] s = s
interleave (cpu ∷ schedule) s = interleave schedule (take_step s cpu)

-- Every pointer that a CPU holds is to the element in the map, and no CPU is about to insert.
pub record IsSettled (s : Race) : Type 0 where
  pub here : (cpu : ℕ) → (s.phase cpu ≡ idle) ⊎ (s.phase cpu ≡ found s.element)

pub eq_self : (n : ℕ) → (n == n) ≡ true
eq_self n = ground arith

pub set_phase-IsSettled :
    (s t : Race) (cpu : ℕ) (p : Phase)
    → IsSettled s
    → t.element ≡ s.element
    → t.phase ≡ set_phase cpu p s.phase
    → (p ≡ idle) ⊎ (p ≡ found s.element)
    → IsSettled t
set_phase-IsSettled s t cpu p h same moved ok = record {
  here = λ c.
      rw (moved, same) (elim (Bool-cases (c == cpu)) [ inl e ↦ rw e ok | inr e ↦ rw e (h.here c) ]);
}

pub look_settled :
    (s : Race) (v cpu : ℕ)
    → s.value ≡ some v
    → s.phase cpu ≡ idle
    → take_step s cpu ≡ record s { phase = set_phase cpu (found s.element) s.phase }
unfolding take_step step_from look
look_settled s v cpu e i =
    ap (λ (p : Phase). step_from p cpu s) i ∙ ap (λ (o : Option ℕ). look o cpu s) e

pub look_absent :
    (s : Race) (cpu : ℕ)
    → s.value ≡ none
    → s.phase cpu ≡ idle
    → take_step s cpu ≡ record s { phase = set_phase cpu missed s.phase }
unfolding take_step step_from look
look_absent s cpu e i =
    ap (λ (p : Phase). step_from p cpu s) i ∙ ap (λ (o : Option ℕ). look o cpu s) e

pub insert_missed : (s : Race) (cpu : ℕ) → s.phase cpu ≡ missed → take_step s cpu ≡ insert_one cpu s
unfolding take_step step_from
insert_missed s cpu i = ap (λ (p : Phase). step_from p cpu s) i

-- The state behind an addition to an element that is in the map.
abbrev pub added : Race → ℕ → ℕ → Race
added s v cpu = record s {
  value = some (add64 v 1);
  phase = set_phase cpu idle s.phase;
  completed = s.completed + 1;
}

pub add_settled :
    (s : Race) (v cpu : ℕ)
    → s.value ≡ some v
    → s.phase cpu ≡ found s.element
    → take_step s cpu ≡ added s v cpu
unfolding take_step step_from add_one
add_settled s v cpu e f =
    ap (λ (p : Phase). step_from p cpu s) f ∙ rw (eq_self s.element, add_one, e) refl
