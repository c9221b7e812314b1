-- ===== src/Counting/Race/Bounds.antt =====
-- However the CPUs interleave, nothing is counted twice.
use monsa_ebpf.Base.{
  ℕ, ◌+◌, ◌≤◌, List, [], ◌∷◌, Option, none, some, Bool, true, false, if◌then◌else◌, ◌==◌, add64,
  arith,
}
use monsa_ebpf.Counting.Race.{
  Phase, idle, missed, found, Race, look, insert_one, add_to, add_one, step_from, take_step,
  interleave,
}

-- A counter that is not above a number; one that is not in the map counts as zero.
abbrev pub IsAtMost : Option ℕ → ℕ → Type 0
IsAtMost none n = Unit
IsAtMost (some v) n = v ≤ n

look-IsAtMost :
    (o : Option ℕ) (cpu : ℕ) (s : Race)
    → IsAtMost s.value s.completed
    → IsAtMost (look o cpu s).value (look o cpu s).completed
unfolding look
look-IsAtMost none cpu s h = h
look-IsAtMost (some v) cpu s h = h

added-IsAtMost :
    (b : Bool) (o : Option ℕ) (n : ℕ) → IsAtMost o n → IsAtMost (if b then add_to o else o) (n + 1)
unfolding add64
added-IsAtMost true none n h = tt
added-IsAtMost true (some u) n h = omega arith
added-IsAtMost false none n h = tt
added-IsAtMost false (some u) n h = omega arith

step_from-IsAtMost :
    (p : Phase) (s : Race) (cpu : ℕ)
    → IsAtMost s.value s.completed
    → IsAtMost (step_from p cpu s).value (step_from p cpu s).completed
unfolding step_from insert_one add_one
step_from-IsAtMost idle s cpu h = look-IsAtMost s.value cpu s h
step_from-IsAtMost missed s cpu h = omega arith
step_from-IsAtMost (found e) s cpu h = added-IsAtMost (e == s.element) s.value s.completed h

-- From a counter that is not in the map, or not above the number of completed updates, no schedule
-- brings it above that number.
pub interleave-IsAtMost :
    (schedule : List ℕ) (s : Race)
    → IsAtMost s.value s.completed
    → IsAtMost (interleave schedule s).value (interleave schedule s).completed
unfolding interleave take_step
interleave-IsAtMost [] s h = h
interleave-IsAtMost (cpu ∷ schedule) s h =
    interleave-IsAtMost schedule (take_step s cpu) (step_from-IsAtMost (s.phase cpu) s cpu h)
