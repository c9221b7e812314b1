-- ===== src/Advanced/Tracing/Kprobe/Trace.antt =====
-- The counters of `kprobe_counts` over any sequence of `execve` calls.
use monsa_ebpf.Base.{ℕ, ◌<◌, ◌^◌, ◌≡◌, some, List, [], ◌∷◌, map, add64, high32, All, ℕ_discrete}
use monsa_ebpf.Kernel.{Helpers, PtRegs, HashMap, IsHash, RingBuf}
use monsa_ebpf.Counting.{State, run}
use monsa_ebpf.Counting.Emit.{counts-counted_step}
use monsa_ebpf.Counting.Trace
use monsa_ebpf.Counting.Trace.{occurrences}
use monsa_ebpf.Advanced.Tracing.Kprobe.{KprobeEvent, msb_kprobe_execve}

-- The process that a run counts for.
abbrev pub caller : Helpers × PtRegs → ℕ
caller (env, ctx) = high32 env.pid_tgid

All-accepted : (is : List (Helpers × PtRegs)) → All (λ _. Unit {0}) is
All-accepted [] = tt
All-accepted (i ∷ is) = (tt, All-accepted is)

-- Whatever the state of the ring, a process whose counter is present at the 64-bit value `c` has it
-- at `c` plus the number of its calls after any sequence of calls by any processes, modulo 2 ^ 64.
pub lookup-run-msb_kprobe_execve :
    (H : HashMap ℕ ℕ) (L : IsHash H) (R : RingBuf KprobeEvent) (is : List (Helpers × PtRegs))
    (s : State H.Map R.Buf) (pid c : ℕ)
    → c < 2 ^ 64
    → H.lookup s.counts pid ≡ some c
    → H.lookup (run (msb_kprobe_execve H R) is s).counts pid
      ≡ some (add64 c (occurrences ℕ_discrete pid (map caller is)))
unfolding msb_kprobe_execve
lookup-run-msb_kprobe_execve H L R is s pid c bound h =
    Trace.lookup-run ℕ_discrete H L (msb_kprobe_execve H R) (λ (s : State H.Map R.Buf). s.counts)
      caller (λ _. Unit {0}) (λ i s _. counts-counted_step H R _ _ _ s) is s pid c (All-accepted is)
      bound h
