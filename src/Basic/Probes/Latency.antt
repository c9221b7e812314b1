-- ===== src/Basic/Probes/Latency.antt =====
-- The execve latency of S1-basic/examples/tracing/fentry_fexit and the statistics of
-- S1-basic/examples/userspace/uretprobe, for an entry and its return.
use monsa_ebpf.Base.{ℕ, ◌-◌, ◌^◌, ◌<◌, ◌≤◌, ◌≡◌, true, if◌then◌else◌}
use monsa_ebpf.Base.{none, some, [], ◌∷◌, ◌++◌, add64, sub64_eq, high32, signed64}
use monsa_ebpf.Kernel.{Helpers, PtRegs, HashMap, IsHash, RingBuf, IsRing}
use monsa_ebpf.Basic.Probes.{
  Store, ExecLatencyEvent, fentry_execve, fexit_execve, StatStore, UretprobeStat, current_stat,
  msb_uretprobe_entry, msb_uretprobe_exit,
}

-- An execve that enters at one time and returns at a later one, in a process for which the start map
-- has room: with room in the ring the return appends one event with the time between the two, and
-- the process is out of the start map afterwards, with room or without.
pub exec_latency :
    (H : HashMap ℕ ℕ) (L : IsHash H) (R : RingBuf ExecLatencyEvent) (LR : IsRing R)
    (first last : Helpers) (s : Store H.Map R.Buf)
    → H.admits s.entries (high32 first.pid_tgid) ≡ true
    → high32 last.pid_tgid ≡ high32 first.pid_tgid
    → first.ktime_ns ≤ last.ktime_ns
    → last.ktime_ns < 2 ^ 64
    → let t = (fexit_execve H R last (fentry_execve H R first s).1).1 in
      (H.lookup t.entries (high32 first.pid_tgid) ≡ none)
      × (R.events t.events ≡ (
          if R.has_room s.events
          then R.events s.events
            ++ record {
              pid = high32 first.pid_tgid;
              comm = last.comm;
              duration_ns = last.ktime_ns - first.ktime_ns;
            }
              ∷ []
          else R.events s.events))
unfolding fentry_execve fexit_execve
exec_latency H L R LR first last s room same order word =
    let pid = high32 first.pid_tgid in
    let stored = L.lookup-update_self s.entries pid first.ktime_ns in
    let here : H.lookup (H.update s.entries pid first.ktime_ns) pid ≡ some first.ktime_ns =
      rw room at stored in
    rw (same, here, sub64_eq last.ktime_ns first.ktime_ns order word, fexit_execve)
      (rw same (L.lookup-delete_self _ pid), rw same (LR.events-output s.events _))

-- A call that enters at one time and returns at a later one, where the start map has room for the
-- process and so has the statistics map: the process has one call more, the time between the two
-- more, both modulo 2 ^ 64, and the returned value; and it is out of the start map.
pub uretprobe_call :
    (H : HashMap ℕ ℕ) (L : IsHash H) (S : HashMap ℕ UretprobeStat) (LS : IsHash S)
    (first last : Helpers) (ctx : PtRegs) (s : StatStore H.Map S.Map)
    → H.admits s.starts (high32 first.pid_tgid) ≡ true
    → S.admits s.stats (high32 first.pid_tgid) ≡ true
    → high32 last.pid_tgid ≡ high32 first.pid_tgid
    → first.ktime_ns ≤ last.ktime_ns
    → last.ktime_ns < 2 ^ 64
    → let t = (msb_uretprobe_exit H S (last, ctx) (msb_uretprobe_entry H S first s).1).1 in
      let old = current_stat S s.stats (high32 first.pid_tgid) in
      (H.lookup t.starts (high32 first.pid_tgid) ≡ none)
      × (S.lookup t.stats (high32 first.pid_tgid)
          ≡ some (record {
            calls = add64 old.calls 1;
            total_ns = add64 old.total_ns (last.ktime_ns - first.ktime_ns);
            last_rc = signed64 ctx.rc;
          }))
unfolding msb_uretprobe_entry msb_uretprobe_exit
uretprobe_call H L S LS first last ctx s room stat_room same order word =
    let pid = high32 first.pid_tgid in
    let stored = L.lookup-update_self s.starts pid first.ktime_ns in
    let here : H.lookup (H.update s.starts pid first.ktime_ns) pid ≡ some first.ktime_ns =
      rw room at stored in
    let old = current_stat S s.stats pid in
    let new : UretprobeStat = record {
      calls = add64 old.calls 1;
      total_ns = add64 old.total_ns (last.ktime_ns - first.ktime_ns);
      last_rc = signed64 ctx.rc;
    } in
    let written = LS.lookup-update_self s.stats pid new in
    rw (same, here, sub64_eq last.ktime_ns first.ktime_ns order word, msb_uretprobe_exit)
      (rw same (L.lookup-delete_self _ pid), rw same (rw stat_room at written))
