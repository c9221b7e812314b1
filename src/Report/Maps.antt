-- ===== src/Report/Maps.antt =====
-- What the loaders of S1-basic/examples print of their maps once a second.
pub mod Walk
pub mod Buffers
use monsa_ebpf.Base.{
  ℕ, zero, suc, ◌≡◌, ℤ, List, [], ◌∷◌, ◌++◌, Option, none, some, Bool, true, false, if◌then◌else◌,
  ◌==◌, bswap16, String,
}
use monsa_ebpf.Basic.PerCpu.{PerCpuArray, printed_total}
use monsa_ebpf.Basic.Probes.{UretprobeStat}
use monsa_ebpf.Report.Print.{Line, word, signed, name, thousandths, ratio}

-- `while (bpf_map_get_next_key(fd, &key, &next_key) == 0) { ...; key = next_key; }`, on a map whose
-- next key is `next key`, with `visit` for the body; `none` means that the fuel ran out.
unfoldable pub walk : {L : Type 0} → (ℕ → Option ℕ) → (ℕ → List L) → ℕ → ℕ → Option (List L)
walk next visit zero key = none
walk next visit (suc fuel) key = elim (next key) [
  | none ↦ some []
  | some next_key ↦ elim (walk next visit fuel next_key) [
    | none ↦ none
    | some lines ↦ some (visit next_key ++ lines)
  ]
]

-- The line of a key that is still there.
unfoldable pub visit : {V : Type 0} → (ℕ → Option V) → (ℕ → V → Line) → ℕ → List Line
visit lookup line key = elim (lookup key) [ none ↦ [] | some v ↦ line key v ∷ [] ]

-- The header line, then the walk from key 0.
unfoldable pub print_entries :
    {V : Type 0}
    → String
    → (ℕ → V → Line)
    → (ℕ → Option ℕ)
    → (ℕ → Option V)
    → ℕ
    → Option (List Line)
unfolding walk visit
print_entries header line next lookup fuel = elim (walk next (visit lookup line) fuel 0) [
  | none ↦ none
  | some lines ↦ some (record { format = header; args = [] } ∷ lines)
]

unfoldable pub port_line : ℕ → ℕ → Line
port_line key value = record {
  format = "  %u -> %llu\n";
  args = word (bswap16 key) ∷ word value ∷ [];
}

unfoldable pub sk_lookup_print_map : (ℕ → Option ℕ) → (ℕ → Option ℕ) → ℕ → Option (List Line)
unfolding print_entries port_line
sk_lookup_print_map = print_entries "dport -> lookups\n" port_line

unfoldable pub return_line : ℕ → ℤ → Line
return_line key value = record {
  format = "  pid=%u ret=%lld\n";
  args = word key ∷ signed value ∷ [];
}

unfoldable pub kretprobe_dump_map : (ℕ → Option ℕ) → (ℕ → Option ℤ) → ℕ → Option (List Line)
unfolding print_entries return_line
kretprobe_dump_map = print_entries "PID -> getpid return value\n" return_line

unfoldable pub calls_line : ℕ → ℕ → Line
calls_line key value = record {
  format = "  pid=%u calls=%llu\n";
  args = word key ∷ word value ∷ [];
}

unfoldable pub uprobe_print_map : (ℕ → Option ℕ) → (ℕ → Option ℕ) → ℕ → Option (List Line)
unfolding print_entries calls_line
uprobe_print_map = print_entries "PID -> calls\n" calls_line

-- The average in milliseconds is a `double`: it stands as the two numbers that it is the ratio of.
unfoldable pub stat_line : ℕ → UretprobeStat → Line
stat_line key stat = record {
  format = "  pid=%u calls=%llu avg_ms=%.3f last_rc=%lld\n";
  args =
      word key
      ∷ word stat.calls
      ∷ (if stat.calls == 0 then thousandths 0 else ratio stat.total_ns stat.calls)
      ∷ signed stat.last_rc
      ∷ [];
}

unfoldable pub uretprobe_print_stats :
    (ℕ → Option ℕ) → (ℕ → Option UretprobeStat) → ℕ → Option (List Line)
unfolding print_entries stat_line
uretprobe_print_stats = print_entries "PID -> calls avg_ms last_rc\n" stat_line

-- The sum of a per-CPU counter, where the array has that index.
unfoldable pub print_total : (A : PerCpuArray ℕ) → ℕ → A.Map → (ℕ → Line) → ℕ → List Line
print_total A possible m line idx = elim (A.lookup m 0 idx) [
  | none ↦ []
  | some v ↦ line (printed_total A possible m idx) ∷ []
]

unfoldable pub total_line : String → ℕ → Line
total_line format total = record { format = format; args = word total ∷ [] }

unfoldable pub named_line : String → String → ℕ → Line
named_line format label total = record { format = format; args = name label ∷ word total ∷ [] }

-- `for (key = 0; key < n; key++)` over the names, from a key on.
unfoldable pub print_named : (A : PerCpuArray ℕ) → ℕ → A.Map → String → ℕ → List String → List Line
unfolding print_total named_line
print_named A possible m format key [] = []
print_named A possible m format key (label ∷ labels) =
    print_total A possible m (named_line format label) key
    ++ print_named A possible m format (suc key) labels

module _ (A : PerCpuArray ℕ) (possible : ℕ) where
  unfoldable pub raw_tracepoint_print_count : A.Map → List Line
  unfolding print_total total_line
  raw_tracepoint_print_count m = print_total A possible m (total_line "fork count = %llu\n") 0

  unfoldable pub tracepoint_print_count : A.Map → List Line
  unfolding print_total total_line
  tracepoint_print_count m = print_total A possible m (total_line "execve count = %llu\n") 0

  unfoldable pub socket_filter_print_stats : A.Map → List Line
  unfolding print_total total_line
  socket_filter_print_stats m = print_total A possible m (total_line "socket packets = %llu\n") 0

  unfoldable pub xdp_print_stats : A.Map → List Line
  unfolding print_total total_line
  xdp_print_stats m = print_total A possible m (total_line "xdp packets = %llu\n") 0

  unfoldable pub tc_print_stats : A.Map → List Line
  unfolding print_total total_line
  tc_print_stats m = print_total A possible m (total_line "tc packets = %llu\n") 0

  unfoldable pub cgroup_sock_print_stats : A.Map → List Line
  unfolding print_total total_line
  cgroup_sock_print_stats m = print_total A possible m (total_line "socket_create count = %llu\n") 0

  unfoldable pub perf_event_print_stats : A.Map → List Line
  unfolding print_total total_line
  perf_event_print_stats m = print_total A possible m (total_line "perf samples = %llu\n") 0

  -- Two maps, of ingress and of egress.
  unfoldable pub cgroup_skb_print_stats : A.Map → A.Map → List Line
  unfolding print_total total_line
  cgroup_skb_print_stats ing eg =
      print_total A possible ing (total_line "cgroup ingress packets = %llu\n") 0
      ++ print_total A possible eg (total_line "cgroup egress packets = %llu\n") 0

  unfoldable pub cgroup_bpf_print_stats : A.Map → List Line
  unfolding print_named
  cgroup_bpf_print_stats m =
      print_named A possible m "%s = %llu\n" 0
        ("prog_load" ∷ "map_create" ∷ "prog_attach" ∷ "prog_detach" ∷ "other" ∷ [])

  unfoldable pub cgroup_device_print_stats : A.Map → List Line
  unfolding print_named
  cgroup_device_print_stats m =
      print_named A possible m "%s count = %llu\n" 0 ("read" ∷ "write" ∷ "mknod" ∷ "other" ∷ [])

  unfoldable pub cgroup_sockopt_print_stats : A.Map → List Line
  unfolding print_named
  cgroup_sockopt_print_stats m =
      print_named A possible m "%s count = %llu\n" 0 ("setsockopt" ∷ "getsockopt" ∷ [])

  unfoldable pub cgroup_sysctl_print_stats : A.Map → List Line
  unfolding print_named
  cgroup_sysctl_print_stats m =
      print_named A possible m "sysctl %s = %llu\n" 0 ("read" ∷ "write" ∷ [])
