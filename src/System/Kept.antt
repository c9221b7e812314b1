-- ===== src/System/Kept.antt =====
-- What a step of the loader does to the maps: nothing, or the oldest record leaves the ring.
use monsa_ebpf.Base.{ℕ, ℤ, ◌≡◌, refl, List, [], ◌∷◌, Bool, true, false}
use monsa_ebpf.Report.Print.{Line}
use monsa_ebpf.System.{
  Programs, Place, looping, polling, left, System, end_poll, deliver, Reply, hands_over, returns,
  turn_at, Action, event, signal, turn, act, run,
}

pub end_poll-kept :
    {E M : Type 0} (checked : Bool) (r : ℤ) (s : System E M)
    → ((end_poll checked r s).maps ≡ s.maps)
      × ((end_poll checked r s).handled ≡ s.handled)
      × ((end_poll checked r s).printed ≡ s.printed)
unfolding end_poll
end_poll-kept true r s = (refl, refl, refl)
end_poll-kept false r s = (refl, refl, refl)

module _ {E : Type 0} (P : Programs E) (handler : E → List Line) (checked : Bool)
    (Q : P.Maps → Type 0) (kept : (m : P.Maps) → Q m → Q (P.advance m)) where
  end_poll-keeps : (r : ℤ) (s : System E P.Maps) → Q s.maps → Q (end_poll checked r s).maps
  end_poll-keeps r s q = rw ((end_poll-kept checked r s).0) q

  deliver-keeps :
      (n : ℕ) (es : List E) (s : System E P.Maps)
      → Q s.maps
      → Q (deliver P handler checked n es s).maps
  unfolding deliver
  deliver-keeps n [] s q = q
  deliver-keeps n (e ∷ rest) s q = kept s.maps q

  -- What an advance of the ring keeps, a step of the loader keeps.
  pub turn_at-keeps :
      (p : Place) (reply : Reply) (s : System E P.Maps)
      → Q s.maps
      → Q (turn_at P handler checked p reply s).maps
  unfolding turn_at
  turn_at-keeps looping reply s q = q
  turn_at-keeps (polling n) hands_over s q = deliver-keeps n (P.unread s.maps) s q
  turn_at-keeps (polling n) (returns r) s q = end_poll-keeps r s q
  turn_at-keeps left reply s q = q

  -- What the runs keep as well, a schedule keeps.
  pub run-keeps :
      ((i : P.Input) (m : P.Maps) → Q m → Q (P.fire i m))
      → (schedule : List (Action P.Input)) (s : System E P.Maps) → Q s.maps
      → Q (run P handler checked schedule s).maps
  unfolding run act
  run-keeps fired [] s q = q
  run-keeps fired (event i ∷ more) s q = run-keeps fired more _ (fired i s.maps q)
  run-keeps fired (signal ∷ more) s q = run-keeps fired more _ q
  run-keeps fired (turn reply ∷ more) s q = run-keeps fired more _ (turn_at-keeps s.place reply s q)
