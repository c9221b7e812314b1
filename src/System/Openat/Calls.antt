-- ===== src/System/Openat/Calls.antt =====
-- The records of example_kretprobe.bpf.c against the calls that they are of.
use monsa_ebpf.Base.{
  ap, Option-cases, inr, negsuc, none, inl, ◌≤◌, Bool, Bool-cases, dec_lt, drop-length, ltb,
  drop-append, ◌-◌, ℕ, ◌<◌, ◌^◌, ◌≡◌, ◌⊎◌, refl, List, [], ◌∷◌, arith, pos, length, signed64,
  high32, to_s32,
}
use monsa_ebpf.Kernel.{PtRegs, Helpers, HashMap, RingBuf, IsRing}
use monsa_ebpf.Counting.{State}
use monsa_ebpf.Counting.Emit.{emit-full}
use monsa_ebpf.Advanced.Tracing.Kretprobe.{
  PidStats, KretprobeEvent, KretState, fill, take_latency, is_error_retval, error_code_of,
  msb_kprobe_openat_entry, msb_kretprobe_openat_exit,
}
use monsa_ebpf.Advanced.Tracing.Kretprobe.Probes.{Probe, enter, leave, kret_step, events-leave}
use monsa_ebpf.Report.Print.{Line}
use monsa_ebpf.System.{Programs, System, Action, event, signal, turn, act}
use monsa_ebpf.System.Delivery.{AllAllowed, emitted, emissions}
use monsa_ebpf.System.Openat.Ranges.{IsProbe}

-- The two programs, over any maps and ring, as they run under their loader.
abbrev pub kret_programs :
    (T : HashMap ℕ ℕ) (P : HashMap ℕ PidStats) (R : RingBuf KretprobeEvent)
    → (R.Buf → R.Buf)
    → Programs KretprobeEvent
kret_programs T P R consume = record {
  Maps = KretState T.Map P.Map R.Buf;
  Input = Probe;
  fire = λ i s. (kret_step T P R i s).1;
  unread = λ s. R.events s.events;
  advance = λ s. record s { events = consume s.events };
}

-- What a record says of a call, in terms of the 64-bit register with the result: the process, the
-- result as a signed number, and for a register of -4095 to -1 the error with its number.
abbrev pub IsReport : KretprobeEvent → Helpers × PtRegs → Type 0
IsReport e (env, ctx) =
    (e.pid ≡ high32 env.pid_tgid)
    × (((ctx.rc < 2 ^ 63) × (e.retval ≡ pos ctx.rc))
        ⊎ ((2 ^ 63 ≤ ctx.rc) × (e.retval ≡ negsuc (2 ^ 64 - 1 - ctx.rc))))
    × (((2 ^ 64 - 4095 ≤ ctx.rc) × (e.is_error ≡ 1) × (e.error_code ≡ pos (2 ^ 64 - ctx.rc)))
        ⊎ ((ctx.rc < 2 ^ 64 - 4095) × (e.is_error ≡ 0) × (e.error_code ≡ pos 0)))

-- The records are of some of the calls, each of one, in their order.
abbrev pub AreReports : List KretprobeEvent → List (Helpers × PtRegs) → Type 0
AreReports [] [] = Unit
AreReports (e ∷ es) [] = ⊥
AreReports [] (c ∷ cs) = Unit
AreReports (e ∷ es) (c ∷ cs) = (IsReport e c × AreReports es cs) ⊎ AreReports (e ∷ es) cs

-- The returns of a schedule.
abbrev pub returned : List (Action Probe) → List (Helpers × PtRegs)
returned [] = []
returned (event (enter env) ∷ more) = returned more
returned (event (leave env ctx) ∷ more) = (env, ctx) ∷ returned more
returned (signal ∷ more) = returned more
returned (turn reply ∷ more) = returned more

AreReports-skip :
    (es : List KretprobeEvent) (c : Helpers × PtRegs) (cs : List (Helpers × PtRegs))
    → AreReports es cs
    → AreReports es (c ∷ cs)
AreReports-skip [] c cs h = tt
AreReports-skip (e ∷ es) c cs h = inr h

retval_of :
    (rc : ℕ)
    → rc < 2 ^ 64
    → ((rc < 2 ^ 63) × (signed64 rc ≡ pos rc))
      ⊎ ((2 ^ 63 ≤ rc) × (signed64 rc ≡ negsuc (2 ^ 64 - 1 - rc)))
unfolding signed64
retval_of rc h = elim (Bool-cases (ltb rc (2 ^ 63))) [
  | inl e ↦ inl (ground arith, rw e refl)
  | inr e ↦ inr (ground arith, rw e (ap negsuc (omega arith)))
]

status_of :
    (rc : ℕ)
    → rc < 2 ^ 64
    → ((2 ^ 64 - 4095 ≤ rc)
        × (is_error_retval (signed64 rc) ≡ 1)
        × (error_code_of (signed64 rc) ≡ pos (2 ^ 64 - rc)))
      ⊎ ((rc < 2 ^ 64 - 4095)
          × (is_error_retval (signed64 rc) ≡ 0)
          × (error_code_of (signed64 rc) ≡ pos 0))
unfolding is_error_retval error_code_of to_s32 signed64
status_of rc h = elim (dec_lt rc (2 ^ 64 - 4095)) [
  | no p ↦ inl (omega arith, ground arith, ground arith)
  | yes p ↦ inr (p, ground arith, ground arith)
]

fill-IsReport :
    (env : Helpers) (ctx : PtRegs) (latency : ℕ) (old : KretprobeEvent)
    → ctx.rc < 2 ^ 64
    → IsReport (fill env latency (signed64 ctx.rc) old) (env, ctx)
unfolding fill
fill-IsReport env ctx latency old h = (refl, retval_of ctx.rc h, status_of ctx.rc h)

module _ (T : HashMap ℕ ℕ) (P : HashMap ℕ PidStats) (R : RingBuf KretprobeEvent) (LR : IsRing R)
    (consume : R.Buf → R.Buf) where
  abbrev Q : Programs KretprobeEvent
  Q = kret_programs T P R consume

  emitted-enter : (env : Helpers) (s : Q.Maps) → emitted Q (enter env) s ≡ []
  unfolding emitted kret_step msb_kprobe_openat_entry
  emitted-enter env s = drop-length (R.events s.events)

  events-leave_full :
      (env : Helpers) (ctx : PtRegs) (s : Q.Maps)
      → R.reserve s.events ≡ none
      → (kret_step T P R (leave env ctx) s).1.events ≡ s.events
  unfolding kret_step msb_kretprobe_openat_exit
  events-leave_full env ctx s full =
      ap (λ (t : State P.Map R.Buf). t.events) (emit-full R _ _ _ full)

  -- A return emits its record, or finds the ring full.
  emitted-leave :
      (env : Helpers) (ctx : PtRegs) (s : Q.Maps)
      → (emitted Q (leave env ctx) s ≡ [])
        ⊎ ((old : KretprobeEvent) × (emitted Q (leave env ctx) s
              ≡ fill env (take_latency T env s.entry_times).1 (signed64 ctx.rc) old ∷ []))
  unfolding emitted
  emitted-leave env ctx s = elim (Option-cases (R.reserve s.events)) [
    | inl full ↦ inl (rw (events-leave_full env ctx s full) (drop-length (R.events s.events)))
    | inr ((b, old), free) ↦ inr (
      old,
      rw (events-leave T P R LR env ctx s b old free)
          (drop-append (length (R.events s.events)) (R.events s.events) _ refl),
    )
  ]

  -- What a schedule emits are reports of its returns.
  pub emissions-AreReports :
      (handler : KretprobeEvent → List Line) (checked : Bool) (schedule : List (Action Probe))
      (s : System KretprobeEvent Q.Maps)
      → AllAllowed IsProbe schedule
      → AreReports (emissions Q handler checked schedule s) (returned schedule)
  unfolding emissions
  emissions-AreReports handler checked [] s allowed = tt
  emissions-AreReports handler checked (event (enter env) ∷ more) s (ok, allowed) =
      rw (emitted-enter env s.maps) (
        emissions-AreReports handler checked more (act Q handler checked s (event (enter env)))
          allowed)
  emissions-AreReports handler checked (event (leave env ctx) ∷ more) s ((ok, bound), allowed) =
      let rest =
        emissions-AreReports handler checked more (act Q handler checked s (event (leave env ctx)))
          allowed in
      elim (emitted-leave env ctx s.maps) [
        | inl e ↦ rw e (AreReports-skip _ (env, ctx) (returned more) rest)
        | inr (old, e) ↦ rw e (inl (fill-IsReport env ctx _ old bound, rest))
      ]
  emissions-AreReports handler checked (signal ∷ more) s allowed =
      emissions-AreReports handler checked more (act Q handler checked s signal) allowed
  emissions-AreReports handler checked (turn reply ∷ more) s allowed =
      emissions-AreReports handler checked more (act Q handler checked s (turn reply)) allowed
