-- ===== src/Counting/Race/Exact.antt =====
-- A counter that is in the map loses nothing, however the CPUs interleave; and a CPU that is alone
-- does what `hit` does.
use monsa_ebpf.Base.{
  ℕ, suc, ◌+◌, ◌<◌, ◌^◌, ◌≡◌, refl, ◌∙◌, ap, List, [], ◌∷◌, some, Option-cases, inl, inr, add64,
  add64-lt, arith,
}
use monsa_ebpf.Counting.Race.{
  idle, missed, found, Race, set_phase, insert_one, interleave, IsSettled, set_phase-IsSettled,
  look_settled, look_absent, insert_missed, added, add_settled, eq_self,
}
use monsa_ebpf.Kernel.{HashMap}
use monsa_ebpf.Counting.{hit}

add64_0 : (v : ℕ) → v < 2 ^ 64 → v ≡ add64 v 0
unfolding add64
add64_0 v h = omega arith

add64-suc : (v k : ℕ) → add64 (add64 v 1) k ≡ add64 v (suc k)
unfolding add64
add64-suc v k = omega arith

-- A counter that is in the map before, with no CPU about to insert it, is exact: whatever the schedule
-- of the CPUs' steps, it has gone up by the number of completed updates, modulo 2 ^ 64.
pub interleave_exact :
    (schedule : List ℕ) (s : Race) (v : ℕ)
    → IsSettled s
    → s.value ≡ some v
    → v < 2 ^ 64
    → (k : ℕ) × ((interleave schedule s).completed ≡ s.completed + k)
      × ((interleave schedule s).value ≡ some (add64 v k))
unfolding interleave
interleave_exact [] s v h e b = (0, omega arith, e ∙ ap some (add64_0 v b))
interleave_exact (cpu ∷ schedule) s v h e b = elim (h.here cpu) [
  | inl i ↦
      let t = record s { phase = set_phase cpu (found s.element) s.phase } in
      rw (look_settled s v cpu e i, interleave)
        (interleave_exact schedule t v
          (set_phase-IsSettled s t cpu (found s.element) h refl refl (inr refl)) e b)
  | inr f ↦
      let t = added s v cpu in
      let (k, done, value) =
        interleave_exact schedule t (add64 v 1)
          (set_phase-IsSettled s t cpu idle h refl refl (inl refl)) refl (add64-lt v 1) in
      rw (add_settled s v cpu e f, interleave)
        (suc k, omega (arith, done), value ∙ ap some (add64-suc v k))
]

-- A lookup and the step behind it, with no other CPU between them, are the update `hit`.
pub alone-hit :
    {K : Type 0} (H : HashMap K ℕ) (m : H.Map) (key : K) (s : Race) (cpu : ℕ)
    → H.lookup m key ≡ s.value
    → s.phase cpu ≡ idle
    → (interleave (cpu ∷ cpu ∷ []) s).value ≡ some (hit H m key).1
unfolding interleave hit insert_one
alone-hit H m key s cpu same i = elim (Option-cases s.value) [
  | inl e ↦
      let t = record s { phase = set_phase cpu missed s.phase } in
      let there : t.phase cpu ≡ missed = rw (eq_self cpu) refl in
      rw (look_absent s cpu e i, interleave, insert_missed t cpu there, same ∙ e, hit) refl
  | inr (v, e) ↦
      let t = record s { phase = set_phase cpu (found s.element) s.phase } in
      let there : t.phase cpu ≡ found s.element = rw (eq_self cpu) refl in
      rw (look_settled s v cpu e i, interleave, add_settled t v cpu e there, same ∙ e, hit) refl
]
