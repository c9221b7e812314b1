-- ===== src/System/Liveness.antt =====
-- What the loader's steps lead to: every record of the ring in the output, and the end of the loop.
use monsa_ebpf.Base.{
  ◌+◌, ◌≤◌, ◌≡◌, refl, ◌∙◌, ap, List, [], ◌∷◌, ◌++◌, length, length-append, All, Bool, false, arith,
}
use monsa_ebpf.Report.Print.{Line}
use monsa_ebpf.System.{
  Programs, IsProducer, Place, looping, polling, left, System, Action, run, IsPolled,
}
use monsa_ebpf.System.Delivery.{
  AllAllowed, all_records, IsFaithful, print_all, emissions, run_delivers,
}
use monsa_ebpf.System.Progress.{turns, IsCalm, steps_before, IsInLoop, handed_over}

-- Of two ways to split a list, the longer first part begins with the shorter.
prefix_of :
    {E : Type 0} (xs ys zs ws : List E)
    → xs ++ ys ≡ zs ++ ws
    → length zs ≤ length xs
    → (rest : List E) × (xs ≡ zs ++ rest)
prefix_of xs ys [] ws e h = (xs, refl)
prefix_of [] ys (z ∷ zs) ws e h = absurd (omega arith)
prefix_of (x ∷ xs) ys (z ∷ zs) ws e h =
    let (rest, same) = prefix_of xs ys zs ws (cc) (omega arith) in (rest, cc)

steps_before-le : (p : Place) → steps_before p ≤ 1
steps_before-le looping = omega arith
steps_before-le (polling n) = omega arith
steps_before-le left = omega arith

module _ {E : Type 0} (P : Programs E) (handler : E → List Line) (checked : Bool)
    (Allowed : P.Input → Type 0) (Good : E → Type 0) (L : IsProducer P Allowed Good) where
  -- While no signal arrives and no poll fails: as soon as the loader has made one step more than
  -- there were records in the ring, all of these are printed, in their order, behind what was handed
  -- over before, whatever the programs submit meanwhile.
  pub records_are_printed :
      (schedule : List (Action P.Input)) (s : System E P.Maps)
      → AllAllowed Allowed schedule
      → All Good (all_records P s)
      → IsFaithful handler s
      → IsPolled P handler checked schedule s
      → IsCalm schedule
      → s.stop ≡ false
      → IsInLoop s.place
      → length (P.unread s.maps) + 1 ≤ turns schedule
      → let t = run P handler checked schedule s in
        (later : List E) × (t.handled ≡ (s.handled ++ P.unread s.maps) ++ later)
        × (t.printed ≡ print_all handler ((s.handled ++ P.unread s.maps) ++ later))
  records_are_printed schedule s allowed good faithful polled calm go inside enough =
      let t = run P handler checked schedule s in
      let (appended, all_good, faithful') =
        run_delivers P handler checked Allowed Good L schedule s allowed good faithful in
      let soon : steps_before s.place ≤ 1 = steps_before-le s.place in
      let many =
        handed_over P handler checked Allowed Good L schedule (length (P.unread s.maps)) s allowed
          polled calm go inside (omega arith) (omega arith) in
      let (later, same) =
        prefix_of t.handled (P.unread t.maps) (s.handled ++ P.unread s.maps)
          (emissions P handler checked schedule s) appended
          (omega (arith, length-append s.handled (P.unread s.maps))) in
      (later, same, faithful' ∙ ap (print_all handler) same)
