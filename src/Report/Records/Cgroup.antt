-- ===== src/Report/Records/Cgroup.antt =====
-- What the loaders of S2-advanced/examples receive and print: commands, devices, packets and sockets of
-- a cgroup.
use monsa_ebpf.Base.{List, [], ◌∷◌, if◌then◌else◌, ◌==◌}
use monsa_ebpf.Report.Layout.{CType, u32, u64, chars, num, text, num_at, text_at}
use monsa_ebpf.Report.Print.{word, string, name, Line, Wire}
use monsa_ebpf.Advanced.Cgroup.CgroupBpf.{CgroupBpfEvent}
use monsa_ebpf.Advanced.Cgroup.CgroupDevice.{CgroupDeviceEvent}
use monsa_ebpf.Advanced.Cgroup.CgroupSkb.{CgroupSkbEvent}
use monsa_ebpf.Advanced.Cgroup.CgroupSock.{CgroupSockEvent}

-- `struct cgroup_bpf_event`, as the program and as the loader declare it.
abbrev pub cgroup_bpf_written : List CType
cgroup_bpf_written = u64 ∷ u64 ∷ u32 ∷ (chars 16) ∷ u64 ∷ []

abbrev pub cgroup_bpf_read : List CType
cgroup_bpf_read = u64 ∷ u64 ∷ u32 ∷ (chars 16) ∷ u64 ∷ []

abbrev pub cgroup_bpf_wire : Wire CgroupBpfEvent
cgroup_bpf_wire = record {
  written = cgroup_bpf_written;
  read = cgroup_bpf_read;
  stored = λ e. num e.timestamp_ns ∷ num e.cgroup_id ∷ num e.pid ∷ text e.comm ∷ num e.count ∷ [];
  loaded = λ vs. record {
    timestamp_ns = num_at 0 vs;
    cgroup_id = num_at 1 vs;
    pid = num_at 2 vs;
    comm = text_at 3 vs;
    count = num_at 4 vs;
  };
}

unfoldable pub cgroup_bpf_report : CgroupBpfEvent → List Line
cgroup_bpf_report e =
    record { format = "=== Cgroup BPF Event ===\n"; args = [] }
    ∷ record { format = "  Cgroup:   %llu\n"; args = word e.cgroup_id ∷ [] }
    ∷ record { format = "  PID:      %u\n"; args = word e.pid ∷ [] }
    ∷ record { format = "  Comm:     %s\n"; args = string e.comm ∷ [] }
    ∷ record { format = "  Count:    %llu\n\n"; args = word e.count ∷ [] }
    ∷ []

-- `struct cgroup_device_event`, as the program and as the loader declare it.
abbrev pub cgroup_device_written : List CType
cgroup_device_written = u64 ∷ u32 ∷ u32 ∷ u32 ∷ u64 ∷ u32 ∷ u64 ∷ []

abbrev pub cgroup_device_read : List CType
cgroup_device_read = u64 ∷ u32 ∷ u32 ∷ u32 ∷ u64 ∷ u32 ∷ u64 ∷ []

abbrev pub cgroup_device_wire : Wire CgroupDeviceEvent
cgroup_device_wire = record {
  written = cgroup_device_written;
  read = cgroup_device_read;
  stored = λ e.
      num e.timestamp_ns
      ∷ num e.major
      ∷ num e.minor
      ∷ num e.access_type
      ∷ num e.cgroup_id
      ∷ num e.allowed
      ∷ num e.count
      ∷ [];
  loaded = λ vs. record {
    timestamp_ns = num_at 0 vs;
    major = num_at 1 vs;
    minor = num_at 2 vs;
    access_type = num_at 3 vs;
    cgroup_id = num_at 4 vs;
    allowed = num_at 5 vs;
    count = num_at 6 vs;
  };
}

unfoldable pub cgroup_device_report : CgroupDeviceEvent → List Line
cgroup_device_report e =
    record { format = "=== Cgroup Device Event ===\n"; args = [] }
    ∷ record { format = "  Cgroup:   %llu\n"; args = word e.cgroup_id ∷ [] }
    ∷ record { format = "  Device:   %u:%u\n"; args = word e.major ∷ word e.minor ∷ [] }
    ∷ record { format = "  Access:   0x%x\n"; args = word e.access_type ∷ [] }
    ∷ record {
      format = "  Allowed:  %s\n";
      args = name (if e.allowed == 0 then "NO" else "YES") ∷ [];
    }
    ∷ record { format = "  Count:    %llu\n\n"; args = word e.count ∷ [] }
    ∷ []

-- `struct cgroup_skb_event`, as the program and as the loader declare it.
abbrev pub cgroup_skb_written : List CType
cgroup_skb_written = u64 ∷ u32 ∷ u32 ∷ u32 ∷ u64 ∷ u64 ∷ []

abbrev pub cgroup_skb_read : List CType
cgroup_skb_read = u64 ∷ u32 ∷ u32 ∷ u32 ∷ u64 ∷ u64 ∷ []

abbrev pub cgroup_skb_wire : Wire CgroupSkbEvent
cgroup_skb_wire = record {
  written = cgroup_skb_written;
  read = cgroup_skb_read;
  stored = λ e.
      num e.timestamp_ns
      ∷ num e.saddr
      ∷ num e.daddr
      ∷ num e.len
      ∷ num e.cgroup_id
      ∷ num e.count
      ∷ [];
  loaded = λ vs. record {
    timestamp_ns = num_at 0 vs;
    saddr = num_at 1 vs;
    daddr = num_at 2 vs;
    len = num_at 3 vs;
    cgroup_id = num_at 4 vs;
    count = num_at 5 vs;
  };
}

unfoldable pub cgroup_skb_report : CgroupSkbEvent → List Line
cgroup_skb_report e =
    record { format = "=== Cgroup SKB Event ===\n"; args = [] }
    ∷ record { format = "  Cgroup:   %llu\n"; args = word e.cgroup_id ∷ [] }
    ∷ record { format = "  Len:      %u bytes\n"; args = word e.len ∷ [] }
    ∷ record { format = "  Count:    %llu\n\n"; args = word e.count ∷ [] }
    ∷ []

-- `struct cgroup_sock_event`, as the program and as the loader declare it.
abbrev pub cgroup_sock_written : List CType
cgroup_sock_written = u64 ∷ u32 ∷ u32 ∷ u32 ∷ u64 ∷ u64 ∷ []

abbrev pub cgroup_sock_read : List CType
cgroup_sock_read = u64 ∷ u32 ∷ u32 ∷ u32 ∷ u64 ∷ u64 ∷ []

abbrev pub cgroup_sock_wire : Wire CgroupSockEvent
cgroup_sock_wire = record {
  written = cgroup_sock_written;
  read = cgroup_sock_read;
  stored = λ e.
      num e.timestamp_ns
      ∷ num e.family
      ∷ num e.type
      ∷ num e.protocol
      ∷ num e.cgroup_id
      ∷ num e.count
      ∷ [];
  loaded = λ vs. record {
    timestamp_ns = num_at 0 vs;
    family = num_at 1 vs;
    type = num_at 2 vs;
    protocol = num_at 3 vs;
    cgroup_id = num_at 4 vs;
    count = num_at 5 vs;
  };
}

unfoldable pub cgroup_sock_report : CgroupSockEvent → List Line
cgroup_sock_report e =
    record { format = "=== Cgroup Sock Event ===\n"; args = [] }
    ∷ record { format = "  Cgroup:   %llu\n"; args = word e.cgroup_id ∷ [] }
    ∷ record { format = "  Family:   %u\n"; args = word e.family ∷ [] }
    ∷ record { format = "  Type:     %u\n"; args = word e.type ∷ [] }
    ∷ record { format = "  Protocol: %u\n"; args = word e.protocol ∷ [] }
    ∷ record { format = "  Count:    %llu\n\n"; args = word e.count ∷ [] }
    ∷ []
