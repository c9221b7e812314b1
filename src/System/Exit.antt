-- ===== src/System/Exit.antt =====
-- How a loader that looks at its polls ends, by what they returned, in the running system and in its
-- `main`.
use monsa_ebpf.Base.{
  ltb, ℕ, suc, ◌≢◌, ◌⊎◌, map, Bool, sym, ℤ, pos, negsuc, ltb_int, ◌≡◌, refl, ◌∙◌, List, [], ◌∷◌,
  ◌++◌, length, true, false, if◌then◌else◌, ◌==◌, Bool-cases, inl, inr, arith, String,
}
use monsa_ebpf.Loader.{Answers, polls_made, err_after, is_interrupted, is_zero}
use monsa_ebpf.Loader.Advanced.{attach_and_poll_checked}
use monsa_ebpf.Loader.Plan.{summary, is_ready}
use monsa_ebpf.Loader.Plan.Advanced.{attach_and_poll_checked_plan, attach_and_poll_checked-Meets}
use monsa_ebpf.Loader.Polling.{no_polls, AllSucceed, err_after_snoc}
use monsa_ebpf.Report.Print.{Line}
use monsa_ebpf.System.{
  Programs, Place, looping, polling, left, System, end_poll, Action, event, signal, turn, deliver,
  Reply, hands_over, returns, turn_at, act, run, start,
}
use mathlib.Core.Path.{subst}
use mathlib.Core.List.{map-append}
use monsa_ebpf.System.Progress.{IsInLoop}

-- What the last poll leaves in `err`, and where. The kernel's EINTR is 4.
abbrev pub AfterPoll : ℤ → ℤ → Place → Bool → Type 0
AfterPoll (pos n) err place stop = (err ≡ pos n) × (place ≡ left → stop ≡ true)
AfterPoll (negsuc n) err place stop =
    (place ≡ left) × (((n ≡ 3) × (err ≡ pos 0)) ⊎ ((n ≢ 3) × (err ≡ negsuc n)))

abbrev pub EndsBy : List ℤ → ℤ → Place → Bool → Type 0
EndsBy polls err place stop =
    ((polls ≡ []) × (err ≡ pos 0) × (place ≡ left → stop ≡ true))
    ⊎ ((counts : List ℕ) × (r : ℤ) × (polls ≡ map pos counts ++ r ∷ [])
        × AfterPoll r err place stop)

left-ne-inside : (place : Place) → IsInLoop place → place ≢ left
left-ne-inside place inside same = subst IsInLoop same inside

-- In the loop, all polls returned counts.
counts_of :
    (polls : List ℤ) (err : ℤ) (place : Place) (stop : Bool)
    → EndsBy polls err place stop
    → IsInLoop place
    → (counts : List ℕ) × (polls ≡ map pos counts)
counts_of polls err place stop (inl (none, _, _)) inside = ([], none)
counts_of polls err place stop (inr (counts, pos n, same, _)) inside =
    (counts ++ n ∷ [], same ∙ sym (map-append pos counts (n ∷ [])))
counts_of polls err place stop (inr (counts, negsuc n, same, (gone, _))) inside =
    absurd (left-ne-inside place inside gone)

-- A step within the loop, or out of it once it is stopped.
EndsBy-move :
    (polls : List ℤ) (err : ℤ) (p p' : Place) (stop : Bool)
    → EndsBy polls err p stop
    → IsInLoop p
    → (p' ≡ left → stop ≡ true)
    → EndsBy polls err p' stop
EndsBy-move polls err p p' stop (inl (none, zero, _)) inside ok = inl (none, zero, ok)
EndsBy-move polls err p p' stop (inr (counts, pos n, same, (e, _))) inside ok =
    inr (counts, pos n, same, (e, ok))
EndsBy-move polls err p p' stop (inr (counts, negsuc n, same, (gone, _))) inside ok =
    absurd (left-ne-inside p inside gone)

EndsBy-stop :
    (polls : List ℤ) (err : ℤ) (p : Place) (stop : Bool)
    → EndsBy polls err p stop
    → EndsBy polls err p true
EndsBy-stop polls err p stop (inl (none, zero, _)) = inl (none, zero, λ _. refl)
EndsBy-stop polls err p stop (inr (counts, pos n, same, (e, _))) =
    inr (counts, pos n, same, (e, λ _. refl))
EndsBy-stop polls err p stop (inr (counts, negsuc n, same, after)) =
    inr (counts, negsuc n, same, after)

only_stopped : (stop : Bool) → (if stop then left else polling 0) ≡ left → stop ≡ true
only_stopped true h = refl
only_stopped false h = absurd (left-ne-inside (polling 0) tt h)

end_poll-EndsBy :
    {E M : Type 0} (r : ℤ) (s : System E M) (counts : List ℕ)
    → s.polls ≡ map pos counts
    → let t = end_poll true r s in EndsBy t.polls t.err t.place t.stop
unfolding end_poll
end_poll-EndsBy (pos n) s counts same =
    let e : ltb n 0 ≡ false = ground arith in
    inr (counts, pos n, rw same refl, (refl, λ h. absurd (left-ne-inside looping tt (rw e at h))))
end_poll-EndsBy (negsuc n) s counts same = elim (Bool-cases (n == 3)) [
  | inl e ↦ inr (counts, negsuc n, rw same refl, (rw e refl, inl (ground arith, rw e refl)))
  | inr e ↦ inr (counts, negsuc n, rw same refl, (rw e refl, inr (ground arith, rw e refl)))
]

AllSucceed-snoc :
    (rs : List ℤ) (r : ℤ) → AllSucceed rs → ltb_int r (pos 0) ≡ false → AllSucceed (rs ++ r ∷ [])
AllSucceed-snoc [] r h g = (g, tt)
AllSucceed-snoc (x ∷ rs) r (p, h) g = (p, AllSucceed-snoc rs r h g)

-- The variables of a loop that looks at its polls, against the list of their results: `err` is what
-- `main` computes from it, and the loop is left behind the first failure at the latest.
record IsExact {E M : Type 0} (s : System E M) : Type 0 where
  err : err_after (pos 0) s.polls ≡ s.err
  made : polls_made s.polls ≡ length s.polls
  succeeded : IsInLoop s.place → AllSucceed s.polls

end_poll-IsExact :
    {E M : Type 0} (r : ℤ) (s : System E M)
    → IsExact s
    → IsInLoop s.place
    → IsExact (end_poll true r s)
unfolding end_poll
end_poll-IsExact r s h inside =
    let (err, made) = err_after_snoc (pos 0) s.polls r (h.succeeded inside) in
    record {
      err = err;
      made = made;
      succeeded = λ still. AllSucceed-snoc s.polls r (h.succeeded inside) (stays r still);
    }
  where
    stays :
        (r : ℤ)
        → IsInLoop
            (if is_interrupted r then left else (if ltb_int r (pos 0) then left else looping))
        → ltb_int r (pos 0) ≡ false
    stays (pos n) h = ground arith
    stays (negsuc n) h = elim (Bool-cases (n == 3)) [
      | inl e ↦ absurd (rw e at h)
      | inr e ↦ absurd (rw e at h)
    ]

module _ {E : Type 0} (P : Programs E) (handler : E → List Line) where
  deliver-IsExact :
      (n : ℕ) (es : List E) (s : System E P.Maps)
      → s.place ≡ polling n
      → IsExact s
      → IsExact (deliver P handler true n es s)
  unfolding deliver
  deliver-IsExact n [] s at h = h
  deliver-IsExact n (e ∷ rest) s at h = record {
    err = h.err;
    made = h.made;
    succeeded = λ _. h.succeeded (rw at tt);
  }

  turn_at-IsExact :
      (p : Place) (reply : Reply) (s : System E P.Maps)
      → s.place ≡ p
      → IsExact s
      → IsExact (turn_at P handler true p reply s)
  unfolding turn_at
  turn_at-IsExact looping reply s at h = record {
    err = h.err;
    made = h.made;
    succeeded = λ _. h.succeeded (rw at tt);
  }
  turn_at-IsExact (polling n) hands_over s at h = deliver-IsExact n (P.unread s.maps) s at h
  turn_at-IsExact (polling n) (returns r) s at h = end_poll-IsExact r s h (rw at tt)
  turn_at-IsExact left reply s at h = h

  run-IsExact :
      (schedule : List (Action P.Input)) (s : System E P.Maps)
      → IsExact s
      → IsExact (run P handler true schedule s)
  unfolding run act
  run-IsExact [] s h = h
  run-IsExact (event i ∷ more) s h =
      run-IsExact more _ (record { err = h.err; made = h.made; succeeded = h.succeeded })
  run-IsExact (signal ∷ more) s h =
      run-IsExact more _ (record { err = h.err; made = h.made; succeeded = h.succeeded })
  run-IsExact (turn reply ∷ more) s h = run-IsExact more _ (turn_at-IsExact s.place reply s refl h)

  deliver-EndsBy :
      (n : ℕ) (es : List E) (s : System E P.Maps)
      → s.place ≡ polling n
      → EndsBy s.polls s.err s.place s.stop
      → let t = deliver P handler true n es s in EndsBy t.polls t.err t.place t.stop
  unfolding deliver
  deliver-EndsBy n [] s at h = h
  deliver-EndsBy n (e ∷ rest) s at h =
      EndsBy-move s.polls s.err s.place (polling (suc n)) s.stop h (rw at tt)
        λ same. absurd (subst IsInLoop same tt)

  turn_at-EndsBy :
      (p : Place) (reply : Reply) (s : System E P.Maps)
      → s.place ≡ p
      → EndsBy s.polls s.err s.place s.stop
      → let t = turn_at P handler true p reply s in EndsBy t.polls t.err t.place t.stop
  unfolding turn_at
  turn_at-EndsBy looping reply s at h =
      EndsBy-move s.polls s.err s.place _ s.stop h (rw at tt) (only_stopped s.stop)
  turn_at-EndsBy (polling n) hands_over s at h = deliver-EndsBy n (P.unread s.maps) s at h
  turn_at-EndsBy (polling n) (returns r) s at h =
      let (counts, same) = counts_of s.polls s.err s.place s.stop h (rw at tt) in
      end_poll-EndsBy r s counts same
  turn_at-EndsBy left reply s at h = h

  run-EndsBy :
      (schedule : List (Action P.Input)) (s : System E P.Maps)
      → EndsBy s.polls s.err s.place s.stop
      → let t = run P handler true schedule s in EndsBy t.polls t.err t.place t.stop
  unfolding run act
  run-EndsBy [] s h = h
  run-EndsBy (event i ∷ more) s h = run-EndsBy more _ h
  run-EndsBy (signal ∷ more) s h = run-EndsBy more _ (EndsBy-stop s.polls s.err s.place s.stop h)
  run-EndsBy (turn reply ∷ more) s h = run-EndsBy more _ (turn_at-EndsBy s.place reply s refl h)

  -- A loader that looks at its polls, from the start of its loop on any schedule. All its polls but
  -- the last returned counts. If the last returned a count, or there was none, `err` is that count,
  -- or zero, and the loop is left only if it was stopped; if the last failed, the loop is left, with
  -- `err` zero for EINTR (4), and else with that failure. And where the loader has everything that it
  -- needs, `main` on the results of these polls makes as many polls and exits with 0 if this `err` is
  -- zero and with 1 if not.
  pub exits_by_polls :
      (object ring_map : String) (w : Answers) (m : P.Maps) (schedule : List (Action P.Input))
      → is_ready attach_and_poll_checked_plan w ≡ true
      → w.polls ≡ (run P handler true schedule (start m)).polls
      → let t = run P handler true schedule (start m) in
        EndsBy t.polls t.err t.place t.stop
        × (summary (attach_and_poll_checked object ring_map w)
            ≡ record { status = if is_zero t.err then 0 else 1; polls = length t.polls; shows = 0 })
  exits_by_polls object ring_map w m schedule ready same =
      let h =
        run-IsExact schedule (start m)
          (record { err = no_polls.0; made = no_polls.1; succeeded = λ _. tt }) in
      (
        run-EndsBy schedule (start m) (inl (refl, refl, λ same. absurd (subst IsInLoop same tt))),
        (attach_and_poll_checked-Meets object ring_map w).1
            ∙ rw (ready, same) (rw (h.err, h.made) refl),
      )
