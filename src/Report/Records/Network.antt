-- ===== src/Report/Records/Network.antt =====
-- What the loaders of S2-advanced/examples receive and print: network.
use monsa_ebpf.Base.{ℕ, List, [], ◌∷◌, if◌then◌else◌, ◌==◌, bswap32, String}
use monsa_ebpf.Report.Layout.{CType, u8, u16, u32, u64, num, num_at}
use monsa_ebpf.Report.Print.{word, name, address, Line, Wire, proto_name}
use monsa_ebpf.Advanced.Network.Xdp.{XdpEvent}
use monsa_ebpf.Advanced.Network.Tc.{TcEvent}
use monsa_ebpf.Advanced.Network.SocketFilter.{SocketFilterEvent}
use monsa_ebpf.Advanced.Network.SkLookup.{SkLookupEvent}

-- `struct xdp_event`, as the program and as the loader declare it.
abbrev pub xdp_written : List CType
xdp_written = u64 ∷ u32 ∷ u32 ∷ u32 ∷ u16 ∷ u8 ∷ u8 ∷ u32 ∷ u32 ∷ u16 ∷ u16 ∷ u8 ∷ []

abbrev pub xdp_read : List CType
xdp_read = u64 ∷ u32 ∷ u32 ∷ u32 ∷ u16 ∷ u8 ∷ u8 ∷ u32 ∷ u32 ∷ u16 ∷ u16 ∷ u8 ∷ []

abbrev pub xdp_wire : Wire XdpEvent
xdp_wire = record {
  written = xdp_written;
  read = xdp_read;
  stored = λ e.
      num e.timestamp_ns
      ∷ num e.ifindex
      ∷ num e.rx_queue
      ∷ num e.pkt_len
      ∷ num e.eth_proto
      ∷ num e.ip_proto
      ∷ num e.action
      ∷ num e.src_ip
      ∷ num e.dst_ip
      ∷ num e.src_port
      ∷ num e.dst_port
      ∷ num e.tcp_flags
      ∷ [];
  loaded = λ vs. record {
    timestamp_ns = num_at 0 vs;
    ifindex = num_at 1 vs;
    rx_queue = num_at 2 vs;
    pkt_len = num_at 3 vs;
    eth_proto = num_at 4 vs;
    ip_proto = num_at 5 vs;
    action = num_at 6 vs;
    src_ip = num_at 7 vs;
    dst_ip = num_at 8 vs;
    src_port = num_at 9 vs;
    dst_port = num_at 10 vs;
    tcp_flags = num_at 11 vs;
  };
}

unfoldable pub xdp_proto_name : ℕ → String
xdp_proto_name proto =
    if proto == 6
    then "TCP"
    else if proto == 17
    then "UDP"
    else if proto == 1
    then "ICMP"
    else "OTHER"

-- Both calls of `inet_ntoa` return one static buffer, which `printf` reads after them: what stands
-- there is the address of the call that is evaluated later, here the first argument.
unfoldable pub xdp_report : XdpEvent → List Line
unfolding xdp_proto_name
xdp_report e =
    let later = bswap32 e.src_ip in
    record {
      format = "XDP Event: %s %s:%u -> %s:%u len=%u queue=%u\n";
      args =
          name (xdp_proto_name e.ip_proto)
          ∷ address later
          ∷ word e.src_port
          ∷ address later
          ∷ word e.dst_port
          ∷ word e.pkt_len
          ∷ word e.rx_queue
          ∷ [];
    }
    ∷ []

-- `struct tc_event`, as the program and as the loader declare it.
abbrev pub tc_written : List CType
tc_written = u64 ∷ u32 ∷ u32 ∷ u16 ∷ u16 ∷ u8 ∷ u32 ∷ u32 ∷ u64 ∷ []

abbrev pub tc_read : List CType
tc_read = u64 ∷ u32 ∷ u32 ∷ u16 ∷ u16 ∷ u8 ∷ u32 ∷ u32 ∷ u64 ∷ []

abbrev pub tc_wire : Wire TcEvent
tc_wire = record {
  written = tc_written;
  read = tc_read;
  stored = λ e.
      num e.timestamp_ns
      ∷ num e.saddr
      ∷ num e.daddr
      ∷ num e.sport
      ∷ num e.dport
      ∷ num e.protocol
      ∷ num e.len
      ∷ num e.mark
      ∷ num e.count
      ∷ [];
  loaded = λ vs. record {
    timestamp_ns = num_at 0 vs;
    saddr = num_at 1 vs;
    daddr = num_at 2 vs;
    sport = num_at 3 vs;
    dport = num_at 4 vs;
    protocol = num_at 5 vs;
    len = num_at 6 vs;
    mark = num_at 7 vs;
    count = num_at 8 vs;
  };
}

unfoldable pub tc_report : TcEvent → List Line
unfolding proto_name
tc_report e =
    record { format = "=== TC Event (sampled) ===\n"; args = [] }
    ∷ record { format = "  Proto:    %s\n"; args = name (proto_name e.protocol) ∷ [] }
    ∷ record { format = "  Src:      %s:%u\n"; args = address e.saddr ∷ word e.sport ∷ [] }
    ∷ record { format = "  Dst:      %s:%u\n"; args = address e.daddr ∷ word e.dport ∷ [] }
    ∷ record { format = "  Len:      %u bytes\n"; args = word e.len ∷ [] }
    ∷ record { format = "  Mark:     0x%x\n"; args = word e.mark ∷ [] }
    ∷ record { format = "  Count:    %llu\n\n"; args = word e.count ∷ [] }
    ∷ []

-- `struct socket_filter_event`, as the program and as the loader declare it.
abbrev pub socket_filter_written : List CType
socket_filter_written = u64 ∷ u32 ∷ u32 ∷ u16 ∷ u16 ∷ u8 ∷ u32 ∷ u64 ∷ []

abbrev pub socket_filter_read : List CType
socket_filter_read = u64 ∷ u32 ∷ u32 ∷ u16 ∷ u16 ∷ u8 ∷ u32 ∷ u64 ∷ []

abbrev pub socket_filter_wire : Wire SocketFilterEvent
socket_filter_wire = record {
  written = socket_filter_written;
  read = socket_filter_read;
  stored = λ e.
      num e.timestamp_ns
      ∷ num e.saddr
      ∷ num e.daddr
      ∷ num e.sport
      ∷ num e.dport
      ∷ num e.protocol
      ∷ num e.len
      ∷ num e.count
      ∷ [];
  loaded = λ vs. record {
    timestamp_ns = num_at 0 vs;
    saddr = num_at 1 vs;
    daddr = num_at 2 vs;
    sport = num_at 3 vs;
    dport = num_at 4 vs;
    protocol = num_at 5 vs;
    len = num_at 6 vs;
    count = num_at 7 vs;
  };
}

unfoldable pub socket_filter_report : SocketFilterEvent → List Line
unfolding proto_name
socket_filter_report e =
    record { format = "=== Socket Filter Event (sampled) ===\n"; args = [] }
    ∷ record { format = "  Proto:    %s\n"; args = name (proto_name e.protocol) ∷ [] }
    ∷ record { format = "  Src:      %s:%u\n"; args = address e.saddr ∷ word e.sport ∷ [] }
    ∷ record { format = "  Dst:      %s:%u\n"; args = address e.daddr ∷ word e.dport ∷ [] }
    ∷ record { format = "  Len:      %u bytes\n"; args = word e.len ∷ [] }
    ∷ record { format = "  Count:    %llu\n\n"; args = word e.count ∷ [] }
    ∷ []

-- `struct sk_lookup_event`, as the program and as the loader declare it.
abbrev pub sk_lookup_written : List CType
sk_lookup_written = u64 ∷ u32 ∷ u32 ∷ u16 ∷ u16 ∷ u8 ∷ u64 ∷ []

abbrev pub sk_lookup_read : List CType
sk_lookup_read = u64 ∷ u32 ∷ u32 ∷ u16 ∷ u16 ∷ u8 ∷ u64 ∷ []

abbrev pub sk_lookup_wire : Wire SkLookupEvent
sk_lookup_wire = record {
  written = sk_lookup_written;
  read = sk_lookup_read;
  stored = λ e.
      num e.timestamp_ns
      ∷ num e.saddr
      ∷ num e.daddr
      ∷ num e.sport
      ∷ num e.dport
      ∷ num e.protocol
      ∷ num e.count
      ∷ [];
  loaded = λ vs. record {
    timestamp_ns = num_at 0 vs;
    saddr = num_at 1 vs;
    daddr = num_at 2 vs;
    sport = num_at 3 vs;
    dport = num_at 4 vs;
    protocol = num_at 5 vs;
    count = num_at 6 vs;
  };
}

unfoldable pub sk_lookup_report : SkLookupEvent → List Line
unfolding proto_name
sk_lookup_report e =
    record { format = "=== SK_LOOKUP Event ===\n"; args = [] }
    ∷ record { format = "  Proto:    %s\n"; args = name (proto_name e.protocol) ∷ [] }
    ∷ record { format = "  Src:      %s:%u\n"; args = address e.saddr ∷ word e.sport ∷ [] }
    ∷ record { format = "  Dst:      %s:%u\n"; args = address e.daddr ∷ word e.dport ∷ [] }
    ∷ record { format = "  Count:    %llu\n\n"; args = word e.count ∷ [] }
    ∷ []
