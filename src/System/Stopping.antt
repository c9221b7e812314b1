-- ===== src/System/Stopping.antt =====
-- The signal makes the loader leave its loop.
use monsa_ebpf.Base.{
  ℕ, ◌+◌, ◌≤◌, ℤ, pos, ltb_int, ◌≡◌, ◌⊎◌, refl, ◌∙◌, ap, List, [], ◌∷◌, length, length-append, Bool,
  true, false, Bool-cases, inl, inr, arith,
}
use monsa_ebpf.Loader.{is_interrupted}
use monsa_ebpf.Report.Print.{Line}
use monsa_ebpf.System.{
  Programs, IsProducer, Place, looping, polling, left, System, end_poll, Action, event, signal,
  turn, deliver, Reply, hands_over, returns, turn_at, act, run, IsPollReply, IsPolled,
}
use monsa_ebpf.System.Kept.{end_poll-kept}
use monsa_ebpf.System.Delivery.{AllAllowed, all_records, turn_at-records}
use monsa_ebpf.System.Progress.{turns}

-- The steps that a stopped loader still makes, but for one for each record in the ring.
abbrev pub steps_to_leave : Place → ℕ
steps_to_leave looping = 1
steps_to_leave (polling n) = 2
steps_to_leave left = 0

end_poll-leaves :
    {E M : Type 0} (checked : Bool) (r : ℤ) (s : System E M)
    → ((end_poll checked r s).stop ≡ s.stop) × (steps_to_leave (end_poll checked r s).place ≤ 1)
unfolding end_poll
end_poll-leaves false r s = (refl, omega arith)
end_poll-leaves true r s = elim (Bool-cases (is_interrupted r)) [
  | inl e ↦ (refl, rw e (omega arith))
  | inr e ↦ (
    refl,
    rw e (elim (Bool-cases (ltb_int r (pos 0))) [
      | inl b ↦ rw b (omega arith)
      | inr b ↦ rw b (omega arith)
    ]),
  )
]

steps_to_leave-le : (p : Place) → steps_to_leave p ≤ 2
steps_to_leave-le looping = omega arith
steps_to_leave-le (polling n) = omega arith
steps_to_leave-le left = omega arith

left_of : (p : Place) → steps_to_leave p ≡ 0 → p ≡ left
left_of looping h = absurd (omega (arith, h))
left_of (polling n) h = absurd (omega (arith, h))
left_of left h = refl

module _ {E : Type 0} (P : Programs E) (handler : E → List Line) (checked : Bool)
    (Allowed : P.Input → Type 0) (Good : E → Type 0) (L : IsProducer P Allowed Good) where
  abbrev left_to_do : System E P.Maps → ℕ
  left_to_do s = length (P.unread s.maps) + steps_to_leave s.place

  -- A step of a stopped loader that is in its loop brings it nearer to the end.
  abbrev Nearer : System E P.Maps → System E P.Maps → Type 0
  Nearer s t = (t.stop ≡ s.stop) × (left_to_do t + 1 ≤ left_to_do s)

  end_poll-Nearer :
      (r : ℤ) (s : System E P.Maps) → 2 ≤ steps_to_leave s.place → Nearer s (end_poll checked r s)
  end_poll-Nearer r s h =
      let (maps, handled, printed) = end_poll-kept checked r s in
      let (stop, small) = end_poll-leaves checked r s in
      (stop, omega (arith, ap (λ (m : P.Maps). length (P.unread m)) maps))

  deliver-Nearer :
      (n : ℕ) (es : List E) (s : System E P.Maps)
      → s.place ≡ polling n
      → P.unread s.maps ≡ es
      → IsPollReply P handler checked (polling n) hands_over es
      → Nearer s (deliver P handler checked n es s)
  unfolding deliver
  deliver-Nearer n [] s at h polled = elim polled [ ]
  deliver-Nearer n (e ∷ rest) s at h polled =
      (refl, rw (L.unread-advance s.maps e rest h, at, h) (omega arith))

  turn_at-Nearer :
      (p : Place) (reply : Reply) (s : System E P.Maps)
      → s.place ≡ p
      → IsPollReply P handler checked p reply (P.unread s.maps)
      → s.stop ≡ true
      → (p ≡ left) ⊎ Nearer s (turn_at P handler checked p reply s)
  unfolding turn_at
  turn_at-Nearer looping reply s at polled stopped = inr (refl, rw (stopped, at) (omega arith))
  turn_at-Nearer (polling n) hands_over s at polled stopped =
      inr (deliver-Nearer n (P.unread s.maps) s at refl polled)
  turn_at-Nearer (polling n) (returns r) s at polled stopped =
      inr (end_poll-Nearer r s (rw at (omega arith)))
  turn_at-Nearer left reply s at polled stopped = inl refl

  turn_at-left :
      (reply : Reply) (s : System E P.Maps)
      → s.place ≡ left
      → turn_at P handler checked s.place reply s ≡ s
  unfolding turn_at
  turn_at-left reply s at = ap (λ (p : Place). turn_at P handler checked p reply s) at

  stays_left :
      (schedule : List (Action P.Input)) (s : System E P.Maps)
      → s.place ≡ left
      → (run P handler checked schedule s).place ≡ left
  unfolding run act
  stays_left [] s at = at
  stays_left (event i ∷ more) s at = stays_left more _ at
  stays_left (signal ∷ more) s at = stays_left more _ at
  stays_left (turn reply ∷ more) s at =
      ap (λ (t : System E P.Maps). (run P handler checked more t).place) (turn_at-left reply s at)
      ∙ stays_left more s at

  left_or_nearer :
      (schedule : List (Action P.Input)) (s : System E P.Maps)
      → AllAllowed Allowed schedule
      → IsPolled P handler checked schedule s
      → s.stop ≡ true
      → let t = run P handler checked schedule s in
        (t.place ≡ left)
        ⊎ (left_to_do t + turns schedule + length (all_records P s)
            ≤ left_to_do s + length (all_records P t))
  unfolding run act
  left_or_nearer [] s allowed polled stopped = inr (omega arith)
  left_or_nearer (event i ∷ more) s (ok, allowed) polled stopped =
      let (new, appended, good) = L.unread-fire i s.maps ok in
      elim (left_or_nearer more (record s { maps = P.fire i s.maps }) allowed polled stopped) [
        | inl at ↦ inl at
        | inr less ↦ inr (
            omega (
              arith,
              ap (length {A = E}) appended,
              length-append (P.unread s.maps) new,
              length-append s.handled (P.unread s.maps),
              length-append s.handled (P.unread (P.fire i s.maps)),
            ))
      ]
  left_or_nearer (signal ∷ more) s allowed polled stopped =
      left_or_nearer more _ allowed polled refl
  left_or_nearer (turn reply ∷ more) s allowed (ok, polled) stopped =
      elim (turn_at-Nearer s.place reply s refl ok stopped) [
        | inl at ↦ inl (stays_left (turn reply ∷ more) s at)
        | inr (same, near) ↦
            let t = turn_at P handler checked s.place reply s in
            let records =
              ap (length {A = E})
                (turn_at-records P handler checked Allowed Good L s.place reply s) in
            elim (left_or_nearer more t allowed polled (same ∙ stopped)) [
              | inl at ↦ inl at
              | inr less ↦ inr (omega arith)
            ]
      ]

  -- A loader that is stopped leaves its loop: at the latest when it has made two steps more than
  -- there were records in the ring and were submitted since, whatever its polls return.
  pub leaves_when_stopped :
      (schedule : List (Action P.Input)) (s : System E P.Maps) (m : ℕ)
      → AllAllowed Allowed schedule
      → IsPolled P handler checked schedule s
      → s.stop ≡ true
      → let t = run P handler checked schedule s in
        length (all_records P t) ≤ length (all_records P s) + m
        → length (P.unread s.maps) + 2 + m ≤ turns schedule
        → t.place ≡ left
  leaves_when_stopped schedule s m allowed polled stopped few enough =
      elim (left_or_nearer schedule s allowed polled stopped) [
        | inl at ↦ at
        | inr less ↦ left_of _ (omega (arith, steps_to_leave-le s.place))
      ]
