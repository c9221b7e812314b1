-- ===== src/Report/Records/Others.antt =====
-- What the loaders of S2-advanced/examples receive and print: perf_event, uprobe, uretprobe and lsm.
use monsa_ebpf.Base.{zero, suc, ℤ, pos, negsuc, List, [], ◌∷◌, String}
use monsa_ebpf.Report.Layout.{
  CType, u32, u64, s32, s64, chars, num, int, text, num_at, int_at, text_at,
}
use monsa_ebpf.Report.Print.{word, signed, string, name, thousandths, Line, Wire}
use monsa_ebpf.Advanced.Perf.PerfEvent.{PerfSample}
use monsa_ebpf.Advanced.Userspace.Uprobe.{UprobeEvent}
use monsa_ebpf.Advanced.Userspace.Uretprobe.{UretprobeEvent}
use monsa_ebpf.Advanced.Security.LsmFileOpen.{LsmEvent}

-- `struct perf_sample`, as the program and as the loader declare it.
abbrev pub perf_event_written : List CType
perf_event_written = u64 ∷ u32 ∷ u32 ∷ u32 ∷ u64 ∷ (chars 16) ∷ u64 ∷ []

abbrev pub perf_event_read : List CType
perf_event_read = u64 ∷ u32 ∷ u32 ∷ u32 ∷ u64 ∷ (chars 16) ∷ u64 ∷ []

abbrev pub perf_event_wire : Wire PerfSample
perf_event_wire = record {
  written = perf_event_written;
  read = perf_event_read;
  stored = λ e.
      num e.timestamp_ns
      ∷ num e.pid
      ∷ num e.tid
      ∷ num e.cpu
      ∷ num e.period
      ∷ text e.comm
      ∷ num e.count
      ∷ [];
  loaded = λ vs. record {
    timestamp_ns = num_at 0 vs;
    pid = num_at 1 vs;
    tid = num_at 2 vs;
    cpu = num_at 3 vs;
    period = num_at 4 vs;
    comm = text_at 5 vs;
    count = num_at 6 vs;
  };
}

unfoldable pub perf_event_report : PerfSample → List Line
perf_event_report e =
    record { format = "=== Perf Event Sample (cpu-cycles) ===\n"; args = [] }
    ∷ record { format = "  PID:      %u\n"; args = word e.pid ∷ [] }
    ∷ record { format = "  Comm:     %s\n"; args = string e.comm ∷ [] }
    ∷ record { format = "  CPU:      %u\n"; args = word e.cpu ∷ [] }
    ∷ record { format = "  Period:   %llu\n"; args = word e.period ∷ [] }
    ∷ record { format = "  Count:    %llu\n\n"; args = word e.count ∷ [] }
    ∷ []

-- `struct uprobe_event`, as the program and as the loader declare it.
abbrev pub uprobe_written : List CType
uprobe_written =
    u64 ∷ u32 ∷ u32 ∷ u32 ∷ u32 ∷ u64 ∷ (chars 16) ∷ u64 ∷ u64 ∷ u64 ∷ u64 ∷ (chars 32) ∷ []

abbrev pub uprobe_read : List CType
uprobe_read =
    u64 ∷ u32 ∷ u32 ∷ u32 ∷ u32 ∷ u64 ∷ (chars 16) ∷ u64 ∷ u64 ∷ u64 ∷ u64 ∷ (chars 32) ∷ []

abbrev pub uprobe_wire : Wire UprobeEvent
uprobe_wire = record {
  written = uprobe_written;
  read = uprobe_read;
  stored = λ e.
      num e.timestamp_ns
      ∷ num e.pid
      ∷ num e.tid
      ∷ num e.uid
      ∷ num e.gid
      ∷ num e.cgroup_id
      ∷ text e.comm
      ∷ num e.arg0
      ∷ num e.arg1
      ∷ num e.arg2
      ∷ num e.count
      ∷ text e.func_name
      ∷ [];
  loaded = λ vs. record {
    timestamp_ns = num_at 0 vs;
    pid = num_at 1 vs;
    tid = num_at 2 vs;
    uid = num_at 3 vs;
    gid = num_at 4 vs;
    cgroup_id = num_at 5 vs;
    comm = text_at 6 vs;
    arg0 = num_at 7 vs;
    arg1 = num_at 8 vs;
    arg2 = num_at 9 vs;
    count = num_at 10 vs;
    func_name = text_at 11 vs;
  };
}

unfoldable pub uprobe_report : UprobeEvent → List Line
uprobe_report e =
    record { format = "=== Uprobe Event ===\n"; args = [] }
    ∷ record { format = "  PID:      %u\n"; args = word e.pid ∷ [] }
    ∷ record { format = "  Comm:     %s\n"; args = string e.comm ∷ [] }
    ∷ record { format = "  UID/GID:  %u/%u\n"; args = word e.uid ∷ word e.gid ∷ [] }
    ∷ record { format = "  Cgroup:   %llu\n"; args = word e.cgroup_id ∷ [] }
    ∷ record {
      format = "  Arg0-2:   0x%llx, 0x%llx, 0x%llx\n";
      args = word e.arg0 ∷ word e.arg1 ∷ word e.arg2 ∷ [];
    }
    ∷ record { format = "  Count:    %llu\n\n"; args = word e.count ∷ [] }
    ∷ []

-- `struct uretprobe_event`, as the program and as the loader declare it.
abbrev pub uretprobe_written : List CType
uretprobe_written = u64 ∷ u32 ∷ u32 ∷ u32 ∷ u32 ∷ u64 ∷ u64 ∷ u64 ∷ s64 ∷ (chars 16) ∷ []

abbrev pub uretprobe_read : List CType
uretprobe_read = u64 ∷ u32 ∷ u32 ∷ u32 ∷ u32 ∷ u64 ∷ u64 ∷ u64 ∷ s64 ∷ (chars 16) ∷ []

abbrev pub uretprobe_wire : Wire UretprobeEvent
uretprobe_wire = record {
  written = uretprobe_written;
  read = uretprobe_read;
  stored = λ e.
      num e.timestamp_ns
      ∷ num e.pid
      ∷ num e.tid
      ∷ num e.uid
      ∷ num e.gid
      ∷ num e.entry_ts
      ∷ num e.exit_ts
      ∷ num e.latency_ns
      ∷ int e.retval
      ∷ text e.comm
      ∷ [];
  loaded = λ vs. record {
    timestamp_ns = num_at 0 vs;
    pid = num_at 1 vs;
    tid = num_at 2 vs;
    uid = num_at 3 vs;
    gid = num_at 4 vs;
    entry_ts = num_at 5 vs;
    exit_ts = num_at 6 vs;
    latency_ns = num_at 7 vs;
    retval = int_at 8 vs;
    comm = text_at 9 vs;
  };
}

unfoldable pub uretprobe_report : UretprobeEvent → List Line
uretprobe_report e =
    record { format = "=== Uretprobe Event ===\n"; args = [] }
    ∷ record { format = "  PID:      %u\n"; args = word e.pid ∷ [] }
    ∷ record { format = "  Comm:     %s\n"; args = string e.comm ∷ [] }
    ∷ record { format = "  UID/GID:  %u/%u\n"; args = word e.uid ∷ word e.gid ∷ [] }
    ∷ record {
      format = "  Latency:  %llu ns (%.3f μs)\n";
      args = word e.latency_ns ∷ thousandths e.latency_ns ∷ [];
    }
    ∷ record { format = "  RetVal:   %lld\n\n"; args = signed e.retval ∷ [] }
    ∷ []

-- `struct lsm_event`, as the program and as the loader declare it.
abbrev pub lsm_written : List CType
lsm_written =
    u64 ∷ u32 ∷ u32 ∷ u32 ∷ u32 ∷ u64 ∷ (chars 16) ∷ (chars 256) ∷ u32 ∷ u32 ∷ s32 ∷ u64 ∷ []

abbrev pub lsm_read : List CType
lsm_read = u64 ∷ u32 ∷ u32 ∷ u32 ∷ u32 ∷ u64 ∷ (chars 16) ∷ (chars 256) ∷ u32 ∷ u32 ∷ s32 ∷ u64 ∷ []

abbrev pub lsm_wire : Wire LsmEvent
lsm_wire = record {
  written = lsm_written;
  read = lsm_read;
  stored = λ e.
      num e.timestamp_ns
      ∷ num e.pid
      ∷ num e.tid
      ∷ num e.uid
      ∷ num e.gid
      ∷ num e.cgroup_id
      ∷ text e.comm
      ∷ text e.path
      ∷ num e.flags
      ∷ num e.mode
      ∷ int e.decision
      ∷ num e.count
      ∷ [];
  loaded = λ vs. record {
    timestamp_ns = num_at 0 vs;
    pid = num_at 1 vs;
    tid = num_at 2 vs;
    uid = num_at 3 vs;
    gid = num_at 4 vs;
    cgroup_id = num_at 5 vs;
    comm = text_at 6 vs;
    path = text_at 7 vs;
    flags = num_at 8 vs;
    mode = num_at 9 vs;
    decision = int_at 10 vs;
    count = num_at 11 vs;
  };
}

unfoldable pub decision_name : ℤ → String
decision_name (pos zero) = "ALLOW"
decision_name (pos (suc n)) = "DENY"
decision_name (negsuc n) = "DENY"

unfoldable pub lsm_report : LsmEvent → List Line
unfolding decision_name
lsm_report e =
    record { format = "=== LSM File Open Event ===\n"; args = [] }
    ∷ record { format = "  PID:      %u\n"; args = word e.pid ∷ [] }
    ∷ record { format = "  Comm:     %s\n"; args = string e.comm ∷ [] }
    ∷ record { format = "  UID/GID:  %u/%u\n"; args = word e.uid ∷ word e.gid ∷ [] }
    ∷ record { format = "  Cgroup:   %llu\n"; args = word e.cgroup_id ∷ [] }
    ∷ record { format = "  Path:     %s\n"; args = string e.path ∷ [] }
    ∷ record { format = "  Decision: %s\n"; args = name (decision_name e.decision) ∷ [] }
    ∷ record { format = "  Count:    %llu\n\n"; args = word e.count ∷ [] }
    ∷ []
