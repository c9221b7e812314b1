-- ===== src/Counting/Sampling.antt =====
-- One event in a hundred: how many records a sampling program emits over a sequence of runs.
use mathlib.Core.Path.{subst}
use monsa_ebpf.Base.{ℕ, zero, suc, ◌+◌, ◌-◌, ◌/◌, ◌^◌, ◌<◌, ◌≡◌, ◌∙◌, ap, arith}
use monsa_ebpf.Base.{true, false, some, List, [], ◌∷◌, length, length-append, All}
use monsa_ebpf.Base.{add64_eq, Bool-cases, inl, inr}
use monsa_ebpf.Kernel.{HashMap, IsHash, RingBuf, IsRing, Line}
use monsa_ebpf.Counting.{State, hit, emit, sampled, sampled_step, run}
use monsa_ebpf.Counting.Map.{hit_present}
use monsa_ebpf.Counting.Emit.{pending-emit}

-- The ring has `n` free records, whatever is written to them.
abbrev pub Room : {E : Type 0} (R : RingBuf E) → ℕ → R.Buf → Type 0
Room R zero b = Unit
Room {E} R (suc n) b =
    (b' : R.Buf) × (old : E) × (R.reserve b ≡ some (b', old))
    × ((evt : E) → Room R n (R.submit b' evt))

module _ {K E : Type 0} (H : HashMap K ℕ) (R : RingBuf E) (k : K) (fill : ℕ → E → E)
    (lines : ℕ → E → List Line) (s : State H.Map R.Buf) where
  pub counts-sampled_step : (sampled_step H R k fill lines s).counts ≡ (hit H s.counts k).0
  unfolding sampled_step emit
  counts-sampled_step = ground arith

  -- Off the sample the ring is left alone.
  pub sampled_step_skip :
      sampled (hit H s.counts k).1 ≡ false → (sampled_step H R k fill lines s).events ≡ s.events
  unfolding sampled_step emit
  sampled_step_skip h = ground arith

  pub sampled_step_submit :
      (b : R.Buf) (old : E)
      → sampled (hit H s.counts k).1 ≡ true
      → R.reserve s.events ≡ some (b, old)
      → (sampled_step H R k fill lines s).events ≡ R.submit b (fill (hit H s.counts k).1 old)
  unfolding sampled_step emit
  sampled_step_submit b old h e = ground arith

  pub pending-sampled_step :
      IsRing R → R.pending (sampled_step H R k fill lines s).events ≡ R.pending s.events
  unfolding sampled_step
  pending-sampled_step L = elim (Bool-cases (sampled (hit H s.counts k).1)) [
    | inl e ↦ rw e (pending-emit R _ _ L _)
    | inr e ↦ rw e
  ]

quota_skip :
    (c n : ℕ)
    → sampled (c + 1) ≡ false
    → (c + 1 + n) / 100 - (c + 1) / 100 ≡ (c + suc n) / 100 - c / 100
unfolding sampled
quota_skip c n h = ground arith

quota_take :
    (c n : ℕ)
    → sampled (c + 1) ≡ true
    → (c + suc n) / 100 - c / 100 ≡ suc ((c + 1 + n) / 100 - (c + 1) / 100)
unfolding sampled
quota_take c n h = ground arith

module _ {K I E : Type 0} (H : HashMap K ℕ) (L : IsHash H) (R : RingBuf E) (LR : IsRing R)
    (program : I → State H.Map R.Buf → ℕ × State H.Map R.Buf) (k : K) (Accepted : I → Type 0)
    (fill : (i : I) → Accepted i → ℕ → E → E) (lines : (i : I) → Accepted i → ℕ → E → List Line)
    (step : (i : I) (s : State H.Map R.Buf) (ok : Accepted i)
      → (program i s).1 ≡ sampled_step H R k (fill i ok) (lines i ok) s) where
  one_counts :
      (i : I) (s : State H.Map R.Buf) (c : ℕ)
      → Accepted i
      → c + 1 < 2 ^ 64
      → H.lookup s.counts k ≡ some c
      → (H.lookup (program i s).1.counts k ≡ some (c + 1)) × ((hit H s.counts k).1 ≡ c + 1)
  one_counts i s c ok bound h =
      let here = hit_present H L s.counts k c h in
      let e = add64_eq c 1 bound in
      (rw (step i s ok, counts-sampled_step) (here.0 ∙ ap some e), here.1 ∙ e)

  -- A program whose runs all count `k` from `c`, and whose ring has room, emits one record for each
  -- multiple of a hundred that the counter passes.
  pub length-events-run :
      (is : List I) (s : State H.Map R.Buf) (c : ℕ)
      → All Accepted is
      → H.lookup s.counts k ≡ some c
      → c + length is < 2 ^ 64
      → Room R ((c + length is) / 100 - c / 100) s.events
      → length (R.events (run program is s).events)
        ≡ length (R.events s.events) + ((c + length is) / 100 - c / 100)
  unfolding run
  length-events-run [] s c ok h bound room = omega arith
  length-events-run (i ∷ is) s c (ok, oks) h bound room =
      let (h', new) = one_counts i s c ok (omega arith) h in
      let n = length is in
      elim (Bool-cases (sampled (c + 1))) [
        | inr e ↦
            let same : (program i s).1.events ≡ s.events =
              rw (step i s ok) (sampled_step_skip H R k _ _ s (rw new e)) in
            let ih =
              length-events-run is (program i s).1 (c + 1) oks h' (omega arith)
                (rw (quota_skip c n e, same) room) in
            ih ∙ rw same (omega (arith, quota_skip c n e))
        | inl e ↦
            let (b, old, r, more) : Room R (suc ((c + 1 + n) / 100 - (c + 1) / 100)) s.events =
              subst (λ q. Room R q s.events) (quota_take c n e) room in
            let next : (program i s).1.events ≡ R.submit b (fill i ok (hit H s.counts k).1 old) =
              rw (step i s ok) (sampled_step_submit H R k _ _ s b old (rw new e) r) in
            let ih =
              length-events-run is (program i s).1 (c + 1) oks h' (omega arith)
                (rw next (more _)) in
            let grown : length (R.events (program i s).1.events) ≡ length (R.events s.events) + 1 =
              rw (next, LR.events-submit, LR.events-reserve s.events r) (length-append _ _) in
            ih ∙ omega (arith, grown, quota_take c n e)
      ]
