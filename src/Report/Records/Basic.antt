-- ===== src/Report/Records/Basic.antt =====
-- What the loaders of S1-basic/examples with a ring receive and print.
use monsa_ebpf.Base.{List, [], ◌∷◌, pattern32}
use monsa_ebpf.Report.Layout.{CType, u32, u64, s32, chars, num, int, text, num_at, int_at, text_at}
use monsa_ebpf.Report.Print.{word, string, Line, Wire}
use monsa_ebpf.Basic.Probes.{ExecEvent, ExecLatencyEvent, FileOpenEvent}

-- `struct exec_event`, as the program and as the loader declare it.
abbrev pub exec_written : List CType
exec_written = u32 ∷ (chars 16) ∷ u64 ∷ []

abbrev pub exec_read : List CType
exec_read = u32 ∷ (chars 16) ∷ u64 ∷ []

abbrev pub exec_wire : Wire ExecEvent
exec_wire = record {
  written = exec_written;
  read = exec_read;
  stored = λ e. num e.pid ∷ text e.comm ∷ num e.count ∷ [];
  loaded = λ vs. record { pid = num_at 0 vs; comm = text_at 1 vs; count = num_at 2 vs };
}

unfoldable pub exec_report : ExecEvent → List Line
exec_report e =
    record {
      format = "execve pid=%u comm=%s count=%llu\n";
      args = word e.pid ∷ string e.comm ∷ word e.count ∷ [];
    }
    ∷ []

-- `struct exec_latency_event`, as the program and as the loader declare it.
abbrev pub exec_latency_written : List CType
exec_latency_written = u32 ∷ (chars 16) ∷ u64 ∷ []

abbrev pub exec_latency_read : List CType
exec_latency_read = u32 ∷ (chars 16) ∷ u64 ∷ []

abbrev pub exec_latency_wire : Wire ExecLatencyEvent
exec_latency_wire = record {
  written = exec_latency_written;
  read = exec_latency_read;
  stored = λ e. num e.pid ∷ text e.comm ∷ num e.duration_ns ∷ [];
  loaded = λ vs. record { pid = num_at 0 vs; comm = text_at 1 vs; duration_ns = num_at 2 vs };
}

unfoldable pub exec_latency_report : ExecLatencyEvent → List Line
exec_latency_report e =
    record {
      format = "exec pid=%u comm=%s latency_ns=%llu\n";
      args = word e.pid ∷ string e.comm ∷ word e.duration_ns ∷ [];
    }
    ∷ []

-- `struct file_open_event`, as the program and as the loader declare it.
abbrev pub file_open_written : List CType
file_open_written = u32 ∷ (chars 16) ∷ s32 ∷ []

abbrev pub file_open_read : List CType
file_open_read = u32 ∷ (chars 16) ∷ s32 ∷ []

abbrev pub file_open_wire : Wire FileOpenEvent
file_open_wire = record {
  written = file_open_written;
  read = file_open_read;
  stored = λ e. num e.pid ∷ text e.comm ∷ int e.mask ∷ [];
  loaded = λ vs. record { pid = num_at 0 vs; comm = text_at 1 vs; mask = int_at 2 vs };
}

unfoldable pub file_open_report : FileOpenEvent → List Line
unfolding pattern32
file_open_report e =
    record {
      format = "file_open pid=%u comm=%s mask=0x%x\n";
      args = word e.pid ∷ string e.comm ∷ word (pattern32 e.mask) ∷ [];
    }
    ∷ []
