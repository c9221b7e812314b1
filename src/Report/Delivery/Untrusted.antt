-- ===== src/Report/Delivery/Untrusted.antt =====
-- The handlers on arbitrary bytes.
use monsa_ebpf.Base.{ℕ, ◌≤◌, ◌<◌, ◌≡◌, ◌⊎◌, inl, inr, refl, List, [], length}
use monsa_ebpf.Report.Layout.{Value, sizeof, AllFit}
use monsa_ebpf.Report.Wire.Typed.{IsBytes}
use monsa_ebpf.Report.Wire.Stored.{IsStored, received-IsStored}
use monsa_ebpf.Report.Delivery.{Source, wire_of, handle_event, report_of}

-- Of any bytes that the ring hands over, a handler prints nothing if they are fewer than its record
-- has; and else it prints a record whose fields are values of their C types, each with the bytes that
-- stand at the offset of the field, all within these bytes.
pub handle_event_typed :
    (x : Source) (bytes : List ℕ)
    → IsBytes bytes
    → ((length bytes < sizeof (wire_of x).read) × (handle_event x bytes ≡ []))
      ⊎ ((sizeof (wire_of x).read ≤ length bytes)
          × ((vs : List Value) × AllFit (wire_of x).read vs
              × IsStored 0 (wire_of x).read vs bytes
              × (handle_event x bytes ≡ report_of x ((wire_of x).loaded vs))))
unfolding handle_event
handle_event_typed x bytes h = elim (received-IsStored (wire_of x).read bytes h) [
  | inl (short, e) ↦ inl (short, rw (e, handle_event) refl)
  | inr (long, (vs, fit, stored, e)) ↦ inr (long, (vs, fit, stored, rw (e, handle_event) refl))
]
