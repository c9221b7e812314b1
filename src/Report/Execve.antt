-- ===== src/Report/Execve.antt =====
-- One `execve`, from the kprobe program through the ring to the loader's output.
use monsa_ebpf.Base.{
  ℕ, ◌<◌, ◌^◌, ◌≡◌, refl, ap, ◌∙◌, true, some, List, [], ◌∷◌, ◌++◌, Option-cases, inl, inr, arith,
  length, length-drop, low32, high32, memcpy, get_elem?, add64-lt,
}
use monsa_ebpf.Kernel.{Helpers, PtRegs, HashMap, IsHash, RingBuf, IsRing}
use monsa_ebpf.Counting.{State, hit}
use monsa_ebpf.Counting.Map.{hit_stored}
use monsa_ebpf.Counting.Emit.{counts-counted_step, events-counted_step}
use monsa_ebpf.Advanced.Tracing.Kprobe.{KprobeEvent, fill, msb_kprobe_execve}
use monsa_ebpf.Loader.{kprobe}
use monsa_ebpf.Report.Layout.{AllFit}
use monsa_ebpf.Report.Print.{Line, word}
use monsa_ebpf.Report.Records.Probes.{kprobe_wire, kprobe_written, kprobe_report}
use monsa_ebpf.Report.Wire.{submitted}
use monsa_ebpf.Report.Delivery.{advanced, handle_event, handle_event-submitted, report_of}

-- The values that the helpers and registers hand over are of their types.
pub record InRange (env : Helpers) (ctx : PtRegs) : Type 0 where
  pub time : env.ktime_ns < 2 ^ 64
  pub task : env.pid_tgid < 2 ^ 64
  pub cgroup : env.cgroup_id < 2 ^ 64
  pub name : length env.comm ≡ 16
  pub first : ctx.parm1 < 2 ^ 64
  pub second : ctx.parm2 < 2 ^ 64
  pub third : ctx.parm3 < 2 ^ 64

pub hit-lt : (H : HashMap ℕ ℕ) (m : H.Map) (k : ℕ) → (hit H m k).1 < 2 ^ 64
unfolding hit
hit-lt H m k = elim (Option-cases (H.lookup m k)) [
  | inl e ↦ rw (e, hit) (omega arith)
  | inr (c, e) ↦ rw (e, hit) (add64-lt c 1)
]

pub fill-AllFit :
    (env : Helpers) (ctx : PtRegs) (count : ℕ) (old : KprobeEvent)
    → InRange env ctx
    → count < 2 ^ 64
    → length old.func_name ≡ 32
    → AllFit kprobe_written (kprobe_wire.stored (fill env ctx count old))
unfolding fill high32 low32 memcpy
fill-AllFit env ctx count old r c n = omega (arith, length-drop 17 old.func_name)

pid_line :
    (env : Helpers) (ctx : PtRegs) (count : ℕ) (old : KprobeEvent)
    → get_elem? (report_of (advanced kprobe) (fill env ctx count old)) 3
      ≡ some (record { format = "  PID:        %u\n"; args = word (high32 env.pid_tgid) ∷ [] })
unfolding report_of kprobe_report fill
pid_line env ctx count old = refl

count_line :
    (env : Helpers) (ctx : PtRegs) (count : ℕ) (old : KprobeEvent)
    → get_elem? (report_of (advanced kprobe) (fill env ctx count old)) 13
      ≡ some (record { format = "  Call Count: %llu\n"; args = word count ∷ [] })
unfolding report_of kprobe_report fill
count_line env ctx count old = refl

-- Where the counter map admits the process, the ring has a free record with a name buffer of 32 bytes,
-- and helpers and registers hand over values of their types, one `execve` makes the loader print its
-- process, and as `Call Count` what the map then holds for that process, whatever bytes the ring held
-- before.
pub execve_printed :
    (H : HashMap ℕ ℕ) (L : IsHash H) (R : RingBuf KprobeEvent) (LR : IsRing R) (env : Helpers)
    (ctx : PtRegs) (s : State H.Map R.Buf) (b : R.Buf) (old : KprobeEvent) (memory : ℕ → ℕ)
    → InRange env ctx
    → H.admits s.counts (high32 env.pid_tgid) ≡ true
    → R.reserve s.events ≡ some (b, old)
    → length old.func_name ≡ 32
    → let t = (msb_kprobe_execve H R (env, ctx) s).1 in
      (evt : KprobeEvent) × (R.events t.events ≡ R.events s.events ++ evt ∷ [])
      × (H.lookup t.counts (high32 env.pid_tgid) ≡ some evt.count)
      × (let printed =
            handle_event
              (advanced kprobe)
              (submitted memory kprobe_written (kprobe_wire.stored evt)) in
          (get_elem? printed 3
            ≡ some
                (record { format = "  PID:        %u\n"; args = word (high32 env.pid_tgid) ∷ [] }))
          × (get_elem? printed 13
              ≡ some (record { format = "  Call Count: %llu\n"; args = word evt.count ∷ [] })))
unfolding msb_kprobe_execve fill
execve_printed H L R LR env ctx s b old memory range room free size =
    let count = (hit H s.counts (high32 env.pid_tgid)).1 in
    let evt = fill env ctx count old in
    let printed =
      handle_event-submitted (advanced kprobe) memory evt
        (fill-AllFit env ctx count old range (hit-lt H s.counts (high32 env.pid_tgid)) size) in
    (
      evt,
      events-counted_step H R _ _ _ s LR b old free,
      ap (λ (m : H.Map). H.lookup m (high32 env.pid_tgid)) (counts-counted_step H R _ _ _ s)
          ∙ hit_stored H L s.counts (high32 env.pid_tgid) room,
      (
        ap (λ (ls : List Line). get_elem? ls 3) printed ∙ pid_line env ctx count old,
        ap (λ (ls : List Line). get_elem? ls 13) printed ∙ count_line env ctx count old,
      ),
    )
