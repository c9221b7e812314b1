-- ===== src/Advanced/Tracing/Kprobe/Record.antt =====
-- The record that one `execve` leaves in the ring.
use monsa_ebpf.Base.{ℕ, ◌+◌, ◌*◌, ◌<◌, ◌^◌, ◌≡◌, refl, ap, ◌∙◌, true, some, [], ◌∷◌, ◌++◌}
use monsa_ebpf.Base.{arith, length, drop, length-drop, low32, high32, memcpy, c_string, codes}
use monsa_ebpf.Kernel.{Helpers, PtRegs, HashMap, IsHash, RingBuf, IsRing}
use monsa_ebpf.Counting.{State, hit}
use monsa_ebpf.Counting.Map.{hit_stored}
use monsa_ebpf.Counting.Emit.{counts-counted_step, events-counted_step}
use monsa_ebpf.Advanced.Tracing.Kprobe.{KprobeEvent, fill, msb_kprobe_execve}

-- Where the counter map admits the process and the ring has a free record, whose name buffer has 32
-- bytes, the run appends one event. Its count is what the map then holds for its process, its
-- process and thread are the halves of the helper's word, and `%s` prints the function's name,
-- whatever bytes the record held; the fifteen bytes behind the name are still those old bytes.
pub kprobe_record :
    (H : HashMap ℕ ℕ) (L : IsHash H) (R : RingBuf KprobeEvent) (LR : IsRing R) (env : Helpers)
    (ctx : PtRegs) (s : State H.Map R.Buf) (b : R.Buf) (old : KprobeEvent)
    → env.pid_tgid < 2 ^ 64
    → H.admits s.counts (high32 env.pid_tgid) ≡ true
    → R.reserve s.events ≡ some (b, old)
    → length old.func_name ≡ 32
    → let t = (msb_kprobe_execve H R (env, ctx) s).1 in
      (evt : KprobeEvent) × (R.events t.events ≡ R.events s.events ++ evt ∷ [])
      × (H.lookup t.counts evt.pid ≡ some evt.count)
      × (evt.pid * 2 ^ 32 + evt.tid ≡ env.pid_tgid)
      × (c_string evt.func_name ≡ codes "__x64_sys_execve")
      × (length evt.func_name ≡ 32)
      × (drop 17 evt.func_name ≡ drop 17 old.func_name)
unfolding msb_kprobe_execve fill high32 low32 memcpy c_string
kprobe_record H L R LR env ctx s b old bound room free size = (
  fill env ctx (hit H s.counts (high32 env.pid_tgid)).1 old,
  events-counted_step H R _ _ _ s LR b old free,
  ap (λ (m : H.Map). H.lookup m (high32 env.pid_tgid)) (counts-counted_step H R _ _ _ s)
      ∙ hit_stored H L s.counts (high32 env.pid_tgid) room,
  omega arith,
  refl,
  omega (arith, length-drop 17 old.func_name),
  refl,
)
