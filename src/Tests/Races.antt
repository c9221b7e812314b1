-- ===== src/Tests/Races.antt =====
-- One entry of the latency statistics under several CPUs, and the readers of maps and records on
-- inputs that they do not expect.
use monsa_ebpf.Base.{
  ℕ, zero, suc, ◌+◌, ◌≤◌, ◌<◌, ◌≡◌, ◌⊎◌, refl, arith, some, none, List, [], ◌∷◌, length, replicate,
  add64, if◌then◌else◌, ltb,
}
use monsa_ebpf.Advanced.Latency.{LatencyStats}
use monsa_ebpf.Advanced.Latency.Summary.{sum}
use monsa_ebpf.Advanced.Latency.Race.{idle, max_testing, interleave, quiet}
use monsa_ebpf.Advanced.Latency.Race.Totals.{totals_exact}
use monsa_ebpf.Advanced.Latency.Race.Extremes.{extremes_are_latencies, IsBegun}
use monsa_ebpf.Advanced.Latency.Race.Lost.{minimum_lost, overlap}
use monsa_ebpf.Basic.PerCpu.{memory_array, memory_array-IsPerCpuArray, value, total}
use monsa_ebpf.Loader.{kprobe}
use monsa_ebpf.Report.Layout.{Value, sizeof, AllFit}
use monsa_ebpf.Report.Delivery.{advanced, wire_of, handle_event, report_of}
use monsa_ebpf.Report.Wire.Stored.{IsStored}
use monsa_ebpf.Report.Delivery.Untrusted.{handle_event_typed}
use monsa_ebpf.Report.Maps.{total_line, named_line}
use monsa_ebpf.Report.Maps.Buffers.{
  print_sum, print_sum_fits, cgroup_sock_addr_print_stats, cgroup_sock_addr_overruns, counts_format,
}

abbrev entry : LatencyStats
entry = record { count = 2; total_ns = 100; min_ns = 40; max_ns = 60 }

-- CPU 0 and CPU 1, interleaved up to the end of both updates.
abbrev both : List (ℕ × ℕ)
both =
    (0, 10) ∷ (1, 70) ∷ (0, 0) ∷ (1, 0) ∷ (0, 0) ∷ (1, 0) ∷ (0, 0) ∷ (1, 0) ∷ (0, 0) ∷ (1, 0) ∷ []

both_done : (cpu : ℕ) → cpu < 2 → (interleave both (quiet entry)).stage cpu ≡ idle
unfolding interleave
both_done zero h = refl
both_done (suc zero) h = refl
both_done (suc (suc n)) h = absurd (omega arith)

totals_exact_example :
    let s = interleave both (quiet entry) in
    (s.stats.count ≡ add64 2 (length s.begun)) × (s.stats.total_ns ≡ add64 100 (sum s.begun))
totals_exact_example = totals_exact 2 entry both (omega arith) (omega arith) (omega arith) both_done

extremes_are_latencies_example :
    let s = interleave both (quiet entry) in
    ((s.stats.min_ns ≡ 40) ⊎ IsBegun s.stats.min_ns s.begun)
    × (s.stats.min_ns ≤ 40)
    × ((s.stats.max_ns ≡ 60) ⊎ IsBegun s.stats.max_ns s.begun)
    × (60 ≤ s.stats.max_ns)
extremes_are_latencies_example = extremes_are_latencies entry both

minimum_lost_example :
    let s = interleave (overlap 10 20) (quiet entry) in
    (s.stats.min_ns ≡ 20)
    × (s.begun ≡ 20 ∷ 10 ∷ [])
    × (s.stage 0 ≡ max_testing 10)
    × (s.stage 1 ≡ max_testing 20)
minimum_lost_example = minimum_lost 10 20 entry (omega arith) (omega arith)

-- More bytes than a record of the kprobe example has.
abbrev many_bytes : List ℕ
many_bytes = replicate 120 65

handle_event_typed_example :
    ((length many_bytes < sizeof (wire_of (advanced kprobe)).read)
      × (handle_event (advanced kprobe) many_bytes ≡ []))
    ⊎ ((sizeof (wire_of (advanced kprobe)).read ≤ length many_bytes)
        × ((vs : List Value) × AllFit (wire_of (advanced kprobe)).read vs
            × IsStored 0 (wire_of (advanced kprobe)).read vs many_bytes
            × (handle_event (advanced kprobe) many_bytes
                ≡ report_of (advanced kprobe) ((wire_of (advanced kprobe)).loaded vs))))
handle_event_typed_example = handle_event_typed (advanced kprobe) many_bytes (omega arith)

abbrev counters : ℕ → ℕ → ℕ
counters cpu idx = cpu + idx

print_sum_fits_example :
    print_sum (memory_array 4 1) 4 counters (total_line "xdp packets = %llu\n") 0 ≡ (
      if ltb 128 4
      then none
      else some (total_line "xdp packets = %llu\n" (total (memory_array 4 1) counters 0 4) ∷ []))
print_sum_fits_example =
    print_sum_fits (memory_array 4 1) 4 1 (memory_array-IsPerCpuArray 4 1) counters
      (total_line "xdp packets = %llu\n") 0 (omega arith) (omega arith)

cgroup_sock_addr_overruns_example : cgroup_sock_addr_print_stats (memory_array 2 3) 2 counters ≡ (
    if ltb 1 2
    then none
    else some (
        named_line counts_format "connect" (value (memory_array 2 3) counters 0 0)
        ∷ named_line counts_format "bind" (value (memory_array 2 3) counters 1 0)
        ∷ named_line counts_format "sendmsg" (value (memory_array 2 3) counters 2 0)
        ∷ []))
cgroup_sock_addr_overruns_example =
    cgroup_sock_addr_overruns (memory_array 2 3) 2 (memory_array-IsPerCpuArray 2 3) counters
      (omega arith)
