-- ===== src/System/Burst.antt =====
-- A burst of calls that the ring has room for reaches the output whole.
use monsa_ebpf.Base.{
  ℕ, ◌+◌, ◌≤◌, ◌<◌, ◌≡◌, refl, ◌∙◌, sym, ap, List, [], ◌∷◌, ◌++◌, append_assoc, append-nil, map,
  length, length-append, Bool, arith,
}
use monsa_ebpf.Report.Print.{Line}
use monsa_ebpf.System.{
  Programs, IsProducer, System, Action, event, signal, turn, Reply, turn_at, act, run,
}
use monsa_ebpf.System.Delivery.{AllAllowed, all_records, turn_at-records}
use monsa_ebpf.System.Kept.{turn_at-keeps}
use monsa_ebpf.System.Progress.{turn_at-handled}
use monsa_ebpf.System.Counters.{keys}

map-append : {A B : Type 0} (f : A → B) (xs ys : List A) → map f (xs ++ ys) ≡ map f xs ++ map f ys
map-append f [] ys = refl
map-append {B} f (x ∷ xs) ys = ap (λ (zs : List B). f x ∷ zs) (map-append f xs ys)

module _ {E K : Type 0} (P : Programs E) (handler : E → List Line) (checked : Bool)
    (Allowed : P.Input → Type 0) (Good : E → Type 0) (L : IsProducer P Allowed Good) (label : E → K)
    (key : P.Input → K) (IsReady : P.Maps → Type 0) (limit : ℕ)
    (fire_one : (i : P.Input) (m : P.Maps)
      → Allowed i
      → IsReady m
      → length (P.unread m) < limit
      → (e : E) × (P.unread (P.fire i m) ≡ P.unread m ++ e ∷ [])
        × (label e ≡ key i)
        × IsReady (P.fire i m))
    (advance_ready : (m : P.Maps) → IsReady m → IsReady (P.advance m)) where
  turn_at-unread :
      (reply : Reply) (s : System E P.Maps)
      → length (P.unread (turn_at P handler checked s.place reply s).maps)
        ≤ length (P.unread s.maps)
  turn_at-unread reply s =
      let t = turn_at P handler checked s.place reply s in
      omega (
        arith,
        ap (length {A = E}) (turn_at-records P handler checked Allowed Good L s.place reply s),
        length-append s.handled (P.unread s.maps),
        length-append t.handled (P.unread t.maps),
        turn_at-handled P handler checked Allowed Good L s.place reply s,
      )

  -- Where no reservation is open and the ring has room for as many records as it holds and as there
  -- are runs in the schedule, every run appends its record, in order, whatever the loader does.
  pub burst_is_recorded :
      (schedule : List (Action P.Input)) (s : System E P.Maps)
      → AllAllowed Allowed schedule
      → IsReady s.maps
      → length (P.unread s.maps) + length (keys key schedule) ≤ limit
      → map label (all_records P (run P handler checked schedule s))
        ≡ map label (all_records P s) ++ keys key schedule
  unfolding run act
  burst_is_recorded [] s allowed ready small = sym (append-nil (map label (all_records P s)))
  burst_is_recorded (event i ∷ more) s (ok, allowed) ready small =
      let (e, appended, same, ready') = fire_one i s.maps ok ready (omega arith) in
      let t = record s { maps = P.fire i s.maps } in
      let all : all_records P t ≡ all_records P s ++ e ∷ [] =
        rw appended (sym (append_assoc s.handled (P.unread s.maps) (e ∷ []))) in
      burst_is_recorded more t allowed ready'
        (omega (arith, ap (length {A = E}) appended, length-append (P.unread s.maps) (e ∷ [])))
      ∙ rw (all, map-append label (all_records P s) (e ∷ []), same)
          (append_assoc (map label (all_records P s)) (key i ∷ []) (keys key more))
  burst_is_recorded (signal ∷ more) s allowed ready small =
      burst_is_recorded more _ allowed ready small
  burst_is_recorded (turn reply ∷ more) s allowed ready small =
      let t = turn_at P handler checked s.place reply s in
      burst_is_recorded more t allowed
        (turn_at-keeps P handler checked IsReady advance_ready s.place reply s ready)
        (omega (arith, turn_at-unread reply s))
      ∙ ap (λ (es : List E). map label es ++ keys key more)
          (turn_at-records P handler checked Allowed Good L s.place reply s)
