-- ===== src/Counting/Emit.antt =====
-- What one emission does to the ring: one record more, or nothing, and no reservation left open.
use monsa_ebpf.Base.{ℕ, ◌+◌, ◌≡◌, ◌∙◌, sym, ap, arith, none, some, All, append-nil}
use monsa_ebpf.Base.{List, [], ◌∷◌, ◌++◌, length, length-append, Option-cases, inl, inr}
use monsa_ebpf.Kernel.{HashMap, RingBuf, IsRing, Line}
use monsa_ebpf.Counting.{State, hit, emit, counted_step}

module _ {E M : Type 0} (R : RingBuf E) (fill : E → E) (lines : E → List Line) where
  pub emit-counts : (s : State M R.Buf) → (emit R fill lines s).counts ≡ s.counts
  unfolding emit
  emit-counts s = ground arith

  -- A full ring: nothing is recorded or logged.
  pub emit-full : (s : State M R.Buf) → R.reserve s.events ≡ none → emit R fill lines s ≡ s
  unfolding emit
  emit-full s h = ground arith

  pub events-emit :
      (L : IsRing R) (s : State M R.Buf) (b : R.Buf) (old : E)
      → R.reserve s.events ≡ some (b, old)
      → R.events (emit R fill lines s).events ≡ R.events s.events ++ fill old ∷ []
  unfolding emit
  events-emit L s b old h =
      ground (arith, L.events-reserve s.events h, L.events-submit b (fill old))

  -- Every reservation is submitted.
  pub pending-emit :
      (L : IsRing R) (s : State M R.Buf)
      → R.pending (emit R fill lines s).events ≡ R.pending s.events
  unfolding emit
  pending-emit L s = elim (Option-cases (R.reserve s.events)) [
    | inl e ↦ ap (λ (t : State M R.Buf). R.pending t.events) (emit-full s e)
    | inr ((b, old), e) ↦
        ground (arith, L.pending-reserve s.events e, L.pending-submit b (fill old))
  ]

  pub length-events-emit :
      (L : IsRing R) (s : State M R.Buf) (b : R.Buf) (old : E)
      → R.reserve s.events ≡ some (b, old)
      → length (R.events (emit R fill lines s).events) ≡ length (R.events s.events) + 1
  length-events-emit L s b old h = rw (events-emit L s b old h) (length-append _ _)

-- An emission appends one good record, or none.
pub emit-appends :
    {E M : Type 0} (R : RingBuf E) (fill : E → E) (lines : E → List Line) (L : IsRing R)
    (Good : E → Type 0) (s : State M R.Buf)
    → ((b : R.Buf) (old : E) → R.reserve s.events ≡ some (b, old) → Good (fill old))
    → (new : List E) × (R.events (emit R fill lines s).events ≡ R.events s.events ++ new)
      × All Good new
emit-appends {M} R fill lines L Good s good = elim (Option-cases (R.reserve s.events)) [
  | inl e ↦ (
    [],
    ap (λ (t : State M R.Buf). R.events t.events) (emit-full R fill lines s e)
        ∙ sym (append-nil (R.events s.events)),
    tt,
  )
  | inr ((b, old), e) ↦ (fill old ∷ [], events-emit R fill lines L s b old e, (good b old e, tt))
]

module _ {K E : Type 0} (H : HashMap K ℕ) (R : RingBuf E) (k : K) (fill : ℕ → E → E)
    (lines : ℕ → E → List Line) (s : State H.Map R.Buf) where
  pub counts-counted_step : (counted_step H R k fill lines s).counts ≡ (hit H s.counts k).0
  unfolding counted_step
  counts-counted_step = emit-counts R _ _ _

  pub pending-counted_step :
      IsRing R → R.pending (counted_step H R k fill lines s).events ≡ R.pending s.events
  unfolding counted_step
  pending-counted_step L = pending-emit R _ _ L _

  pub events-counted_step :
      (L : IsRing R) (b : R.Buf) (old : E)
      → R.reserve s.events ≡ some (b, old)
      → R.events (counted_step H R k fill lines s).events
        ≡ R.events s.events ++ fill (hit H s.counts k).1 old ∷ []
  unfolding counted_step
  events-counted_step L b old e = events-emit R _ _ L _ b old e

  pub counted_step_full :
      R.reserve s.events ≡ none
      → counted_step H R k fill lines s ≡ record s { counts = (hit H s.counts k).0 }
  unfolding counted_step
  counted_step_full e = emit-full R _ _ _ e
