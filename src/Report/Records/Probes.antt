-- ===== src/Report/Records/Probes.antt =====
-- What the loaders of S2-advanced/examples receive and print: kprobe and kretprobe.
use monsa_ebpf.Base.{List, [], ◌∷◌, ◌++◌, if◌then◌else◌, ◌==◌}
use monsa_ebpf.Report.Layout.{
  CType, u8, u32, u64, s32, s64, chars, num, int, text, num_at, int_at, text_at,
}
use monsa_ebpf.Report.Print.{word, signed, string, name, thousandths, Line, Wire, clock}
use monsa_ebpf.Advanced.Tracing.Kprobe.{KprobeEvent}
use monsa_ebpf.Advanced.Tracing.Kretprobe.{KretprobeEvent}

-- `struct kprobe_event`, as the program and as the loader declare it.
abbrev pub kprobe_written : List CType
kprobe_written =
    u64 ∷ u32 ∷ u32 ∷ u32 ∷ u32 ∷ u32 ∷ u64 ∷ (chars 16) ∷ u64 ∷ u64 ∷ u64 ∷ u64 ∷ (chars 32) ∷ []

abbrev pub kprobe_read : List CType
kprobe_read =
    u64 ∷ u32 ∷ u32 ∷ u32 ∷ u32 ∷ u32 ∷ u64 ∷ (chars 16) ∷ u64 ∷ u64 ∷ u64 ∷ u64 ∷ (chars 32) ∷ []

abbrev pub kprobe_wire : Wire KprobeEvent
kprobe_wire = record {
  written = kprobe_written;
  read = kprobe_read;
  stored = λ e.
      num e.timestamp_ns
      ∷ num e.pid
      ∷ num e.tid
      ∷ num e.ppid
      ∷ num e.uid
      ∷ num e.gid
      ∷ num e.cgroup_id
      ∷ text e.comm
      ∷ num e.arg0
      ∷ num e.arg1
      ∷ num e.arg2
      ∷ num e.count
      ∷ text e.func_name
      ∷ [];
  loaded = λ vs. record {
    timestamp_ns = num_at 0 vs;
    pid = num_at 1 vs;
    tid = num_at 2 vs;
    ppid = num_at 3 vs;
    uid = num_at 4 vs;
    gid = num_at 5 vs;
    cgroup_id = num_at 6 vs;
    comm = text_at 7 vs;
    arg0 = num_at 8 vs;
    arg1 = num_at 9 vs;
    arg2 = num_at 10 vs;
    count = num_at 11 vs;
    func_name = text_at 12 vs;
  };
}

unfoldable pub kprobe_report : KprobeEvent → List Line
unfolding clock
kprobe_report e =
    record { format = "=== Kprobe Event ===\n"; args = [] }
    ∷ record { format = "  Timestamp:  %s\n"; args = string (clock e.timestamp_ns) ∷ [] }
    ∷ record { format = "  Function:   %s\n"; args = string e.func_name ∷ [] }
    ∷ record { format = "  PID:        %u\n"; args = word e.pid ∷ [] }
    ∷ record { format = "  TID:        %u\n"; args = word e.tid ∷ [] }
    ∷ record { format = "  PPID:       %u\n"; args = word e.ppid ∷ [] }
    ∷ record { format = "  Comm:       %s\n"; args = string e.comm ∷ [] }
    ∷ record { format = "  UID:        %u\n"; args = word e.uid ∷ [] }
    ∷ record { format = "  GID:        %u\n"; args = word e.gid ∷ [] }
    ∷ record { format = "  Cgroup ID:  %llu\n"; args = word e.cgroup_id ∷ [] }
    ∷ record { format = "  Arg0:       0x%llx\n"; args = word e.arg0 ∷ [] }
    ∷ record { format = "  Arg1:       0x%llx\n"; args = word e.arg1 ∷ [] }
    ∷ record { format = "  Arg2:       0x%llx\n"; args = word e.arg2 ∷ [] }
    ∷ record { format = "  Call Count: %llu\n"; args = word e.count ∷ [] }
    ∷ record { format = "\n"; args = [] }
    ∷ []

-- `struct kretprobe_event`, as the program and as the loader declare it.
abbrev pub kretprobe_written : List CType
kretprobe_written =
    u64 ∷ u64 ∷ u32 ∷ u32 ∷ u32 ∷ u32 ∷ u64 ∷ (chars 16) ∷ s64 ∷ u8 ∷ s32 ∷ (chars 32) ∷ []

abbrev pub kretprobe_read : List CType
kretprobe_read =
    u64 ∷ u64 ∷ u32 ∷ u32 ∷ u32 ∷ u32 ∷ u64 ∷ (chars 16) ∷ s64 ∷ u8 ∷ s32 ∷ (chars 32) ∷ []

abbrev pub kretprobe_wire : Wire KretprobeEvent
kretprobe_wire = record {
  written = kretprobe_written;
  read = kretprobe_read;
  stored = λ e.
      num e.timestamp_ns
      ∷ num e.latency_ns
      ∷ num e.pid
      ∷ num e.tid
      ∷ num e.uid
      ∷ num e.gid
      ∷ num e.cgroup_id
      ∷ text e.comm
      ∷ int e.retval
      ∷ num e.is_error
      ∷ int e.error_code
      ∷ text e.func_name
      ∷ [];
  loaded = λ vs. record {
    timestamp_ns = num_at 0 vs;
    latency_ns = num_at 1 vs;
    pid = num_at 2 vs;
    tid = num_at 3 vs;
    uid = num_at 4 vs;
    gid = num_at 5 vs;
    cgroup_id = num_at 6 vs;
    comm = text_at 7 vs;
    retval = int_at 8 vs;
    is_error = num_at 9 vs;
    error_code = int_at 10 vs;
    func_name = text_at 11 vs;
  };
}

unfoldable pub kretprobe_report : KretprobeEvent → List Line
unfolding clock
kretprobe_report e =
    (record { format = "=== Kretprobe Event ===\n"; args = [] }
      ∷ record { format = "  Timestamp:   %s\n"; args = string (clock e.timestamp_ns) ∷ [] }
      ∷ record { format = "  Function:    %s\n"; args = string e.func_name ∷ [] }
      ∷ record { format = "  PID:         %u\n"; args = word e.pid ∷ [] }
      ∷ record { format = "  TID:         %u\n"; args = word e.tid ∷ [] }
      ∷ record { format = "  Comm:        %s\n"; args = string e.comm ∷ [] }
      ∷ record { format = "  UID:         %u\n"; args = word e.uid ∷ [] }
      ∷ record { format = "  GID:         %u\n"; args = word e.gid ∷ [] }
      ∷ record { format = "  Cgroup ID:   %llu\n"; args = word e.cgroup_id ∷ [] }
      ∷ record { format = "  Return Val:  %lld\n"; args = signed e.retval ∷ [] }
      ∷ record {
        format = "  Status:      %s\n";
        args = name (if e.is_error == 0 then "SUCCESS" else "ERROR") ∷ [];
      }
      ∷ [])
    ++ ((if e.is_error == 0
          then []
          else record { format = "  Error Code:  %d\n"; args = signed e.error_code ∷ [] } ∷ [])
        ++ (record { format = "  Latency:     %.3f us\n"; args = thousandths e.latency_ns ∷ [] }
            ∷ record { format = "\n"; args = [] }
            ∷ []))
