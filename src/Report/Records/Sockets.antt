-- ===== src/Report/Records/Sockets.antt =====
-- What the loaders of S2-advanced/examples receive and print: addresses, options and sysctl of
-- a cgroup.
use monsa_ebpf.Base.{List, [], ◌∷◌, if◌then◌else◌, ◌==◌}
use monsa_ebpf.Report.Layout.{
  CType, u16, u32, u64, s32, chars, num, int, text, num_at, int_at, text_at,
}
use monsa_ebpf.Report.Print.{word, signed, string, name, address, Line, Wire}
use monsa_ebpf.Advanced.Cgroup.CgroupSockAddr.{CgroupSockAddrEvent}
use monsa_ebpf.Advanced.Cgroup.CgroupSockopt.{CgroupSockoptEvent}
use monsa_ebpf.Advanced.Cgroup.CgroupSysctl.{CgroupSysctlEvent}

-- `struct cgroup_sock_addr_event`, as the program and as the loader declare it.
abbrev pub cgroup_sock_addr_written : List CType
cgroup_sock_addr_written = u64 ∷ u32 ∷ u32 ∷ u16 ∷ u16 ∷ u32 ∷ u64 ∷ u64 ∷ []

abbrev pub cgroup_sock_addr_read : List CType
cgroup_sock_addr_read = u64 ∷ u32 ∷ u32 ∷ u16 ∷ u16 ∷ u32 ∷ u64 ∷ u64 ∷ []

abbrev pub cgroup_sock_addr_wire : Wire CgroupSockAddrEvent
cgroup_sock_addr_wire = record {
  written = cgroup_sock_addr_written;
  read = cgroup_sock_addr_read;
  stored = λ e.
      num e.timestamp_ns
      ∷ num e.saddr
      ∷ num e.daddr
      ∷ num e.sport
      ∷ num e.dport
      ∷ num e.family
      ∷ num e.cgroup_id
      ∷ num e.count
      ∷ [];
  loaded = λ vs. record {
    timestamp_ns = num_at 0 vs;
    saddr = num_at 1 vs;
    daddr = num_at 2 vs;
    sport = num_at 3 vs;
    dport = num_at 4 vs;
    family = num_at 5 vs;
    cgroup_id = num_at 6 vs;
    count = num_at 7 vs;
  };
}

unfoldable pub cgroup_sock_addr_report : CgroupSockAddrEvent → List Line
cgroup_sock_addr_report e =
    record { format = "=== Cgroup Sock Addr Event ===\n"; args = [] }
    ∷ record { format = "  Cgroup:   %llu\n"; args = word e.cgroup_id ∷ [] }
    ∷ record { format = "  Family:   %u\n"; args = word e.family ∷ [] }
    ∷ record { format = "  Dst:      %s:%u\n"; args = address e.daddr ∷ word e.dport ∷ [] }
    ∷ record { format = "  Count:    %llu\n\n"; args = word e.count ∷ [] }
    ∷ []

-- `struct cgroup_sockopt_event`, as the program and as the loader declare it.
abbrev pub cgroup_sockopt_written : List CType
cgroup_sockopt_written = u64 ∷ s32 ∷ s32 ∷ u64 ∷ u64 ∷ []

abbrev pub cgroup_sockopt_read : List CType
cgroup_sockopt_read = u64 ∷ s32 ∷ s32 ∷ u64 ∷ u64 ∷ []

abbrev pub cgroup_sockopt_wire : Wire CgroupSockoptEvent
cgroup_sockopt_wire = record {
  written = cgroup_sockopt_written;
  read = cgroup_sockopt_read;
  stored =
      λ e. num e.timestamp_ns ∷ int e.level ∷ int e.optname ∷ num e.cgroup_id ∷ num e.count ∷ [];
  loaded = λ vs. record {
    timestamp_ns = num_at 0 vs;
    level = int_at 1 vs;
    optname = int_at 2 vs;
    cgroup_id = num_at 3 vs;
    count = num_at 4 vs;
  };
}

unfoldable pub cgroup_sockopt_report : CgroupSockoptEvent → List Line
cgroup_sockopt_report e =
    record { format = "=== Cgroup Sockopt Event ===\n"; args = [] }
    ∷ record { format = "  Cgroup:   %llu\n"; args = word e.cgroup_id ∷ [] }
    ∷ record { format = "  Level:    %d\n"; args = signed e.level ∷ [] }
    ∷ record { format = "  Optname:  %d\n"; args = signed e.optname ∷ [] }
    ∷ record { format = "  Count:    %llu\n\n"; args = word e.count ∷ [] }
    ∷ []

-- `struct cgroup_sysctl_event`, as the program and as the loader declare it.
abbrev pub cgroup_sysctl_written : List CType
cgroup_sysctl_written = u64 ∷ (chars 128) ∷ u32 ∷ u64 ∷ u64 ∷ []

abbrev pub cgroup_sysctl_read : List CType
cgroup_sysctl_read = u64 ∷ (chars 128) ∷ u32 ∷ u64 ∷ u64 ∷ []

abbrev pub cgroup_sysctl_wire : Wire CgroupSysctlEvent
cgroup_sysctl_wire = record {
  written = cgroup_sysctl_written;
  read = cgroup_sysctl_read;
  stored = λ e. num e.timestamp_ns ∷ text e.name ∷ num e.write ∷ num e.cgroup_id ∷ num e.count ∷ [];
  loaded = λ vs. record {
    timestamp_ns = num_at 0 vs;
    name = text_at 1 vs;
    write = num_at 2 vs;
    cgroup_id = num_at 3 vs;
    count = num_at 4 vs;
  };
}

unfoldable pub cgroup_sysctl_report : CgroupSysctlEvent → List Line
cgroup_sysctl_report e =
    record { format = "=== Cgroup Sysctl Event ===\n"; args = [] }
    ∷ record { format = "  Cgroup:   %llu\n"; args = word e.cgroup_id ∷ [] }
    ∷ record { format = "  Name:     %s\n"; args = string e.name ∷ [] }
    ∷ record {
      format = "  Write:    %s\n";
      args = name (if e.write == 0 then "NO" else "YES") ∷ [];
    }
    ∷ record { format = "  Count:    %llu\n\n"; args = word e.count ∷ [] }
    ∷ []
