-- ===== src/System/Progress.antt =====
-- The loader gets ahead: what is in the ring reaches the handler within a number of its steps, and the
-- signal makes it leave its loop.
use monsa_ebpf.Base.{
  ℕ, zero, suc, ◌+◌, ◌≤◌, ℤ, pos, negsuc, ◌≡◌, refl, ap, List, [], ◌∷◌, length, length-append, Bool,
  false, arith,
}
use monsa_ebpf.Report.Print.{Line}
use monsa_ebpf.System.{
  Programs, IsProducer, Place, looping, polling, left, System, end_poll, Action, event, signal,
  turn, deliver, Reply, hands_over, returns, turn_at, act, run, IsPollReply, IsPolled,
}
use monsa_ebpf.System.Kept.{end_poll-kept}
use monsa_ebpf.System.Delivery.{AllAllowed}

-- The steps of the loader in a schedule.
abbrev pub turns : {I : Type 0} → List (Action I) → ℕ
turns [] = 0
turns (event i ∷ more) = turns more
turns (signal ∷ more) = turns more
turns (turn reply ∷ more) = suc (turns more)

-- No signal arrives, and no poll fails.
abbrev pub IsCalm : {I : Type 0} → List (Action I) → Type 0
IsCalm [] = Unit
IsCalm (event i ∷ more) = IsCalm more
IsCalm (signal ∷ more) = ⊥
IsCalm (turn hands_over ∷ more) = IsCalm more
IsCalm (turn (returns (pos n)) ∷ more) = IsCalm more
IsCalm (turn (returns (negsuc n)) ∷ more) = ⊥

IsCalm-cons :
    {I : Type 0} (reply : Reply) (more : List (Action I))
    → IsCalm (turn reply ∷ more)
    → IsCalm {I = I} (turn reply ∷ []) × IsCalm more
IsCalm-cons hands_over more h = (tt, h)
IsCalm-cons (returns (pos n)) more h = (tt, h)
IsCalm-cons (returns (negsuc n)) more h = elim h [ ]

-- The steps of the loader until it hands over a record, where there is one and it is not stopped.
abbrev pub steps_before : Place → ℕ
steps_before looping = 1
steps_before (polling n) = 0
steps_before left = 0

abbrev pub IsInLoop : Place → Type 0
IsInLoop left = ⊥
IsInLoop p = Unit

module _ {E : Type 0} (P : Programs E) (handler : E → List Line) (checked : Bool)
    (Allowed : P.Input → Type 0) (Good : E → Type 0) (L : IsProducer P Allowed Good) where
  -- Of `k` records that the loader had to hand over, `j` are left.
  record Advances (k : ℕ) (s t : System E P.Maps) : Type 0 where
    j : ℕ
    stop : t.stop ≡ false
    in_loop : IsInLoop t.place
    there : j ≤ length (P.unread t.maps)
    handed : length s.handled + k ≤ length t.handled + j
    sooner : j + steps_before t.place + 1 ≤ k + steps_before s.place

  deliver-Advances :
      (k n : ℕ) (es : List E) (s : System E P.Maps)
      → P.unread s.maps ≡ es
      → s.stop ≡ false
      → suc k ≤ length (P.unread s.maps)
      → s.place ≡ polling n
      → Advances (suc k) s (deliver P handler checked n es s)
  unfolding deliver
  deliver-Advances k n [] s h go small at = absurd (omega (arith, ap (length {A = E}) h))
  deliver-Advances k n (e ∷ rest) s h go small at = record {
    j = k;
    stop = go;
    in_loop = tt;
    there = rw (L.unread-advance s.maps e rest h) (omega (arith, ap (length {A = E}) h));
    handed = omega (arith, length-append s.handled (e ∷ []));
    sooner = rw at (omega arith);
  }

  -- A poll that does not fail cannot return while records are there.
  turn_at-Advances :
      (k : ℕ) (p : Place) (reply : Reply) (s : System E P.Maps)
      → s.place ≡ p
      → IsInLoop p
      → IsPollReply P handler checked p reply (P.unread s.maps)
      → IsCalm {I = P.Input} (turn reply ∷ [])
      → s.stop ≡ false
      → suc k ≤ length (P.unread s.maps)
      → Advances (suc k) s (turn_at P handler checked p reply s)
  unfolding turn_at
  turn_at-Advances k looping reply s at inside polled calm go small = record {
    j = suc k;
    stop = go;
    in_loop = rw go tt;
    there = small;
    handed = omega arith;
    sooner = rw (go, at) (omega arith);
  }
  turn_at-Advances k (polling n) hands_over s at inside polled calm go small =
      deliver-Advances k n (P.unread s.maps) s refl go small at
  turn_at-Advances k (polling n) (returns (pos m)) s at inside polled calm go small =
      absurd (omega (arith, ap (length {A = E}) polled.1))
  turn_at-Advances k (polling n) (returns (negsuc m)) s at inside polled calm go small =
      elim calm [ ]
  turn_at-Advances k left reply s at inside polled calm go small = elim inside [ ]

  end_poll-handled :
      (r : ℤ) (s : System E P.Maps) → length s.handled ≤ length (end_poll checked r s).handled
  end_poll-handled r s =
      let (maps, handled, printed) = end_poll-kept checked r s in rw handled (omega arith)

  deliver-handled :
      (n : ℕ) (es : List E) (s : System E P.Maps)
      → length s.handled ≤ length (deliver P handler checked n es s).handled
  unfolding deliver
  deliver-handled n [] s = omega arith
  deliver-handled n (e ∷ rest) s = omega (arith, length-append s.handled (e ∷ []))

  pub turn_at-handled :
      (p : Place) (reply : Reply) (s : System E P.Maps)
      → length s.handled ≤ length (turn_at P handler checked p reply s).handled
  unfolding turn_at
  turn_at-handled looping reply s = omega arith
  turn_at-handled (polling n) hands_over s = deliver-handled n (P.unread s.maps) s
  turn_at-handled (polling n) (returns r) s = end_poll-handled r s
  turn_at-handled left reply s = omega arith

  run-handled :
      (schedule : List (Action P.Input)) (s : System E P.Maps)
      → length s.handled ≤ length (run P handler checked schedule s).handled
  unfolding run act
  run-handled [] s = omega arith
  run-handled (event i ∷ more) s = run-handled more _
  run-handled (signal ∷ more) s = run-handled more _
  run-handled (turn reply ∷ more) s = omega (
    arith,
    turn_at-handled s.place reply s,
    run-handled more (turn_at P handler checked s.place reply s),
  )

  -- Of the records in the ring, as many are handed over as the loader has steps for.
  pub handed_over :
      (schedule : List (Action P.Input)) (k : ℕ) (s : System E P.Maps)
      → AllAllowed Allowed schedule
      → IsPolled P handler checked schedule s
      → IsCalm schedule
      → s.stop ≡ false
      → IsInLoop s.place
      → k ≤ length (P.unread s.maps)
      → k + steps_before s.place ≤ turns schedule
      → length s.handled + k ≤ length (run P handler checked schedule s).handled
  unfolding run act
  handed_over schedule zero s allowed polled calm go inside there enough =
      omega (arith, run-handled schedule s)
  handed_over [] (suc k) s allowed polled calm go inside there enough = absurd (omega arith)
  handed_over (event i ∷ more) (suc k) s (ok, allowed) polled calm go inside there enough =
      let (new, appended, good) = L.unread-fire i s.maps ok in
      handed_over more (suc k) (record s { maps = P.fire i s.maps }) allowed polled calm go inside
        (omega (arith, ap (length {A = E}) appended, length-append (P.unread s.maps) new)) enough
  handed_over (signal ∷ more) (suc k) s allowed polled calm go inside there enough = elim calm [ ]
  handed_over (turn reply ∷ more) (suc k) s allowed (ok, polled) calm go inside there enough =
      let (first, rest_calm) = IsCalm-cons reply more calm in
      let a = turn_at-Advances k s.place reply s refl inside ok first go there in
      let rest =
        handed_over more a.j (turn_at P handler checked s.place reply s) allowed polled rest_calm
          a.stop a.in_loop a.there (omega (arith, a.sooner)) in
      omega (arith, a.handed)
