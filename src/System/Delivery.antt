-- ===== src/System/Delivery.antt =====
-- Every submitted record reaches the handler once, in order, and what is printed is what the handler
-- makes of these.
use monsa_ebpf.Base.{
  ℕ, ℤ, ◌≡◌, refl, ◌∙◌, sym, List, [], ◌∷◌, ◌++◌, append_assoc, append-nil, All, All-append, Bool,
  length, drop, drop-append,
}
use monsa_ebpf.Report.Print.{Line}
use monsa_ebpf.System.{
  Programs, IsProducer, Place, looping, polling, left, System, end_poll, Action, event, signal,
  turn, deliver, Reply, hands_over, returns, turn_at, act, run,
}
use monsa_ebpf.System.Kept.{end_poll-kept}

-- The lines of several records.
abbrev pub print_all : {E : Type 0} → (E → List Line) → List E → List Line
print_all handler [] = []
print_all handler (e ∷ es) = handler e ++ print_all handler es

print_all-append :
    {E : Type 0} (handler : E → List Line) (xs ys : List E)
    → print_all handler (xs ++ ys) ≡ print_all handler xs ++ print_all handler ys
print_all-append handler [] ys = refl
print_all-append handler (x ∷ xs) ys = rw (print_all-append handler xs ys, append_assoc) refl

-- The runs of a schedule are on allowed inputs.
abbrev pub AllAllowed : {I : Type 0} → (I → Type 0) → List (Action I) → Type 0
AllAllowed Allowed [] = Unit
AllAllowed Allowed (event i ∷ more) = Allowed i × AllAllowed Allowed more
AllAllowed Allowed (signal ∷ more) = AllAllowed Allowed more
AllAllowed Allowed (turn reply ∷ more) = AllAllowed Allowed more

-- The records handed over and those still in the ring.
abbrev pub all_records : {E : Type 0} (P : Programs E) → System E P.Maps → List E
all_records P s = s.handled ++ P.unread s.maps

-- The records by which a run of a program makes the ring longer.
unfoldable pub emitted : {E : Type 0} (P : Programs E) → P.Input → P.Maps → List E
emitted P i m = drop (length (P.unread m)) (P.unread (P.fire i m))

-- The output is what the handler prints of the records handed over.
abbrev pub IsFaithful : {E M : Type 0} → (E → List Line) → System E M → Type 0
IsFaithful handler s = s.printed ≡ print_all handler s.handled

module _ {E : Type 0} (P : Programs E) (handler : E → List Line) (checked : Bool) where
  -- What the runs of a schedule emit, in their order.
  unfoldable pub emissions : List (Action P.Input) → System E P.Maps → List E
  emissions [] s = []
  emissions (event i ∷ more) s =
      emitted P i s.maps ++ emissions more (act P handler checked s (event i))
  emissions (signal ∷ more) s = emissions more (act P handler checked s signal)
  emissions (turn reply ∷ more) s = emissions more (act P handler checked s (turn reply))

module _ {E : Type 0} (P : Programs E) (handler : E → List Line) (checked : Bool)
    (Allowed : P.Input → Type 0) (Good : E → Type 0) (L : IsProducer P Allowed Good) where
  end_poll-records :
      (r : ℤ) (s : System E P.Maps) → all_records P (end_poll checked r s) ≡ all_records P s
  end_poll-records r s =
      let (maps, handled, printed) = end_poll-kept checked r s in rw (maps, handled) refl

  deliver-records :
      (n : ℕ) (es : List E) (s : System E P.Maps)
      → P.unread s.maps ≡ es
      → all_records P (deliver P handler checked n es s) ≡ all_records P s
  unfolding deliver
  deliver-records n [] s h = refl
  deliver-records n (e ∷ rest) s h =
      rw (L.unread-advance s.maps e rest h, h) (append_assoc s.handled (e ∷ []) rest)

  pub turn_at-records :
      (p : Place) (reply : Reply) (s : System E P.Maps)
      → all_records P (turn_at P handler checked p reply s) ≡ all_records P s
  unfolding turn_at
  turn_at-records looping reply s = refl
  turn_at-records (polling n) hands_over s = deliver-records n (P.unread s.maps) s refl
  turn_at-records (polling n) (returns r) s = end_poll-records r s
  turn_at-records left reply s = refl

  fire-emitted :
      (i : P.Input) (m : P.Maps)
      → Allowed i
      → (P.unread (P.fire i m) ≡ P.unread m ++ emitted P i m) × All Good (emitted P i m)
  unfolding emitted
  fire-emitted i m ok =
      let (new, appended, good) = L.unread-fire i m ok in
      let same : emitted P i m ≡ new =
        rw appended (drop-append (length (P.unread m)) (P.unread m) new refl) in
      rw same (appended, good)

  -- A run of a program appends what it emits to all of these, and that is good.
  event-records :
      (i : P.Input) (s : System E P.Maps)
      → Allowed i
      → (all_records P (act P handler checked s (event i)) ≡ all_records P s ++ emitted P i s.maps)
        × All Good (emitted P i s.maps)
  unfolding act
  event-records i s ok =
      let (appended, good) = fire-emitted i s.maps ok in
      (rw appended (sym (append_assoc s.handled (P.unread s.maps) (emitted P i s.maps))), good)

  end_poll-IsFaithful :
      (r : ℤ) (s : System E P.Maps)
      → IsFaithful handler s
      → IsFaithful handler (end_poll checked r s)
  end_poll-IsFaithful r s h =
      let (maps, handled, printed) = end_poll-kept checked r s in rw (printed, handled) h

  deliver-IsFaithful :
      (n : ℕ) (es : List E) (s : System E P.Maps)
      → IsFaithful handler s
      → IsFaithful handler (deliver P handler checked n es s)
  unfolding deliver
  deliver-IsFaithful n [] s h = h
  deliver-IsFaithful n (e ∷ rest) s h =
      rw (print_all-append handler s.handled (e ∷ []), append-nil (handler e), h) refl

  turn_at-IsFaithful :
      (p : Place) (reply : Reply) (s : System E P.Maps)
      → IsFaithful handler s
      → IsFaithful handler (turn_at P handler checked p reply s)
  unfolding turn_at
  turn_at-IsFaithful looping reply s h = h
  turn_at-IsFaithful (polling n) hands_over s h = deliver-IsFaithful n (P.unread s.maps) s h
  turn_at-IsFaithful (polling n) (returns r) s h = end_poll-IsFaithful r s h
  turn_at-IsFaithful left reply s h = h

  act-IsFaithful :
      (a : Action P.Input) (s : System E P.Maps)
      → IsFaithful handler s
      → IsFaithful handler (act P handler checked s a)
  unfolding act
  act-IsFaithful (event i) s h = h
  act-IsFaithful signal s h = h
  act-IsFaithful (turn reply) s h = turn_at-IsFaithful s.place reply s h

  -- Whatever the schedule of program runs on allowed inputs, signals and steps of the loader, and
  -- whatever its polls return: the records handed over and those in the ring, in this order, are those
  -- of before and behind them exactly what the runs of the schedule put into the ring, run by run;
  -- all are good if those of before were; and the output is what the handler prints of the records
  -- handed over.
  pub run_delivers :
      (schedule : List (Action P.Input)) (s : System E P.Maps)
      → AllAllowed Allowed schedule
      → All Good (all_records P s)
      → IsFaithful handler s
      → let t = run P handler checked schedule s in
        (all_records P t ≡ all_records P s ++ emissions P handler checked schedule s)
        × All Good (all_records P t)
        × IsFaithful handler t
  unfolding run emissions
  run_delivers [] s allowed good faithful = (sym (append-nil (all_records P s)), good, faithful)
  run_delivers (event i ∷ more) s (ok, allowed) good faithful =
      let (appended, new_good) = event-records i s ok in
      let (rest_appended, rest_good, rest_faithful) =
        run_delivers more (act P handler checked s (event i)) allowed
          (rw appended (All-append Good (all_records P s) (emitted P i s.maps) good new_good))
          (act-IsFaithful (event i) s faithful) in
      (
        rest_appended ∙ rw appended (append_assoc (all_records P s) (emitted P i s.maps) _),
        rest_good,
        rest_faithful,
      )
  run_delivers (signal ∷ more) s allowed good faithful =
      run_delivers more (act P handler checked s signal) allowed good
        (act-IsFaithful signal s faithful)
  run_delivers (turn reply ∷ more) s allowed good faithful =
      let same = turn_at-records s.place reply s in
      let (rest_appended, rest_good, rest_faithful) =
        run_delivers more (act P handler checked s (turn reply)) allowed (rw same good)
          (act-IsFaithful (turn reply) s faithful) in
      (rest_appended ∙ rw same refl, rest_good, rest_faithful)
