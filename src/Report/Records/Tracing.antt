-- ===== src/Report/Records/Tracing.antt =====
-- What the loaders of S2-advanced/examples receive and print: tracepoints and fentry_fexit.
use monsa_ebpf.Base.{List, [], ◌∷◌, signed64}
use monsa_ebpf.Report.Layout.{CType, u32, u64, s32, chars, num, int, text, num_at, int_at, text_at}
use monsa_ebpf.Report.Print.{word, signed, string, thousandths, Line, Wire}
use monsa_ebpf.Advanced.Tracing.RawTracepoint.{RawTpEvent}
use monsa_ebpf.Advanced.Tracing.Tracepoint.{TpEvent}
use monsa_ebpf.Advanced.Tracing.FentryFexit.{FentryFexitEvent}

-- `struct raw_tp_event`, as the program and as the loader declare it.
abbrev pub raw_tracepoint_written : List CType
raw_tracepoint_written = u64 ∷ u32 ∷ u32 ∷ u32 ∷ u32 ∷ u64 ∷ (chars 16) ∷ u64 ∷ u32 ∷ []

abbrev pub raw_tracepoint_read : List CType
raw_tracepoint_read = u64 ∷ u32 ∷ u32 ∷ u32 ∷ u32 ∷ u64 ∷ (chars 16) ∷ u64 ∷ u32 ∷ []

abbrev pub raw_tracepoint_wire : Wire RawTpEvent
raw_tracepoint_wire = record {
  written = raw_tracepoint_written;
  read = raw_tracepoint_read;
  stored = λ e.
      num e.timestamp_ns
      ∷ num e.pid
      ∷ num e.tid
      ∷ num e.uid
      ∷ num e.gid
      ∷ num e.cgroup_id
      ∷ text e.comm
      ∷ num e.count
      ∷ num e.cpu
      ∷ [];
  loaded = λ vs. record {
    timestamp_ns = num_at 0 vs;
    pid = num_at 1 vs;
    tid = num_at 2 vs;
    uid = num_at 3 vs;
    gid = num_at 4 vs;
    cgroup_id = num_at 5 vs;
    comm = text_at 6 vs;
    count = num_at 7 vs;
    cpu = num_at 8 vs;
  };
}

unfoldable pub raw_tracepoint_report : RawTpEvent → List Line
raw_tracepoint_report e =
    record { format = "=== Raw Tracepoint Event ===\n"; args = [] }
    ∷ record { format = "  PID:      %u\n"; args = word e.pid ∷ [] }
    ∷ record { format = "  Comm:     %s\n"; args = string e.comm ∷ [] }
    ∷ record { format = "  UID/GID:  %u/%u\n"; args = word e.uid ∷ word e.gid ∷ [] }
    ∷ record { format = "  CPU:      %u\n"; args = word e.cpu ∷ [] }
    ∷ record { format = "  Cgroup:   %llu\n"; args = word e.cgroup_id ∷ [] }
    ∷ record { format = "  Count:    %llu\n\n"; args = word e.count ∷ [] }
    ∷ []

-- `struct tp_event`, as the program and as the loader declare it.
abbrev pub tracepoint_written : List CType
tracepoint_written = u64 ∷ u32 ∷ u32 ∷ u32 ∷ u32 ∷ u64 ∷ (chars 16) ∷ u64 ∷ s32 ∷ u32 ∷ []

abbrev pub tracepoint_read : List CType
tracepoint_read = u64 ∷ u32 ∷ u32 ∷ u32 ∷ u32 ∷ u64 ∷ (chars 16) ∷ u64 ∷ s32 ∷ u32 ∷ []

abbrev pub tracepoint_wire : Wire TpEvent
tracepoint_wire = record {
  written = tracepoint_written;
  read = tracepoint_read;
  stored = λ e.
      num e.timestamp_ns
      ∷ num e.pid
      ∷ num e.tid
      ∷ num e.uid
      ∷ num e.gid
      ∷ num e.cgroup_id
      ∷ text e.comm
      ∷ num e.count
      ∷ int e.prio
      ∷ num e.cpu
      ∷ [];
  loaded = λ vs. record {
    timestamp_ns = num_at 0 vs;
    pid = num_at 1 vs;
    tid = num_at 2 vs;
    uid = num_at 3 vs;
    gid = num_at 4 vs;
    cgroup_id = num_at 5 vs;
    comm = text_at 6 vs;
    count = num_at 7 vs;
    prio = int_at 8 vs;
    cpu = num_at 9 vs;
  };
}

unfoldable pub tracepoint_report : TpEvent → List Line
tracepoint_report e =
    record { format = "=== Tracepoint Event (sched_process_exec) ===\n"; args = [] }
    ∷ record { format = "  PID:      %u\n"; args = word e.pid ∷ [] }
    ∷ record { format = "  Comm:     %s\n"; args = string e.comm ∷ [] }
    ∷ record { format = "  UID/GID:  %u/%u\n"; args = word e.uid ∷ word e.gid ∷ [] }
    ∷ record { format = "  CPU:      %u\n"; args = word e.cpu ∷ [] }
    ∷ record { format = "  Cgroup:   %llu\n"; args = word e.cgroup_id ∷ [] }
    ∷ record { format = "  Count:    %llu\n\n"; args = word e.count ∷ [] }
    ∷ []

-- `struct fentry_fexit_event`, as the program and as the loader declare it.
abbrev pub fentry_fexit_written : List CType
fentry_fexit_written =
    u64 ∷ u32 ∷ u32 ∷ u32 ∷ u32 ∷ u64 ∷ (chars 16) ∷ u64 ∷ u64 ∷ u64 ∷ u64 ∷ u64 ∷ []

abbrev pub fentry_fexit_read : List CType
fentry_fexit_read =
    u64 ∷ u32 ∷ u32 ∷ u32 ∷ u32 ∷ u64 ∷ (chars 16) ∷ u64 ∷ u64 ∷ u64 ∷ u64 ∷ u64 ∷ []

abbrev pub fentry_fexit_wire : Wire FentryFexitEvent
fentry_fexit_wire = record {
  written = fentry_fexit_written;
  read = fentry_fexit_read;
  stored = λ e.
      num e.timestamp_ns
      ∷ num e.pid
      ∷ num e.tid
      ∷ num e.uid
      ∷ num e.gid
      ∷ num e.cgroup_id
      ∷ text e.comm
      ∷ num e.entry_ts
      ∷ num e.exit_ts
      ∷ num e.latency_ns
      ∷ num e.retval
      ∷ num e.count
      ∷ [];
  loaded = λ vs. record {
    timestamp_ns = num_at 0 vs;
    pid = num_at 1 vs;
    tid = num_at 2 vs;
    uid = num_at 3 vs;
    gid = num_at 4 vs;
    cgroup_id = num_at 5 vs;
    comm = text_at 6 vs;
    entry_ts = num_at 7 vs;
    exit_ts = num_at 8 vs;
    latency_ns = num_at 9 vs;
    retval = num_at 10 vs;
    count = num_at 11 vs;
  };
}

unfoldable pub fentry_fexit_report : FentryFexitEvent → List Line
fentry_fexit_report e =
    record { format = "=== Fentry/Fexit Event ===\n"; args = [] }
    ∷ record { format = "  PID:      %u\n"; args = word e.pid ∷ [] }
    ∷ record { format = "  Comm:     %s\n"; args = string e.comm ∷ [] }
    ∷ record { format = "  UID/GID:  %u/%u\n"; args = word e.uid ∷ word e.gid ∷ [] }
    ∷ record {
      format = "  Latency:  %llu ns (%.3f μs)\n";
      args = word e.latency_ns ∷ thousandths e.latency_ns ∷ [];
    }
    ∷ record { format = "  RetVal:   %lld\n"; args = signed (signed64 e.retval) ∷ [] }
    ∷ record { format = "  Count:    %llu\n\n"; args = word e.count ∷ [] }
    ∷ []
