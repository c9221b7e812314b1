-- ===== src/Tests/Network.antt =====
-- The programs of S2-advanced/examples/network and cgroup_skb on concrete packets.
use monsa_ebpf.Base.{
  ℕ, ◌+◌, ◌*◌, ◌^◌, ◌≡◌, ◌≢◌, refl, arith, some, List, [], ◌∷◌, ℕ_discrete, bswap16, add64, length,
  low32,
}
use monsa_ebpf.Kernel.{Helpers, HashMap, xdp_pass_action}
use monsa_ebpf.Kernel.PerCpu.{PerCpuArray, slot, memory_array, memory_array-IsPerCpuArray}
use monsa_ebpf.Kernel.Memory.{
  find, find-cons_self, has_slot, take_slot, memory_map, memory_map-IsHash, memory_ring,
  memory_ring-IsRing, memory_lru, Ring,
}
use monsa_ebpf.Counting.{State, run}
use monsa_ebpf.Packet.{SkBuff, fault, done, load8, load16, load32, ihl, map_run, stop_if, ◌>>◌}
use monsa_ebpf.Packet.Frame.{tcp_header, udp_header}
use monsa_ebpf.Tests.{env_at, other_at, words, ring_of}
use monsa_ebpf.Advanced.Network.SocketFilter
use monsa_ebpf.Advanced.Network.SocketFilter.{SocketFilterEvent, headers, msb_socket_filter}
use monsa_ebpf.Advanced.Network.SocketFilter.Flow.{
  step as socket_step, GoesTo, socket_filter_samples,
}
use monsa_ebpf.Advanced.Network.Tc.{TcEvent, FlowKey, FlowStats, flow_key}
use monsa_ebpf.Advanced.Network.Tc.Flow.{
  step as tc_step, lookup-run-msb_tc_classifier, packets_of, bytes_of, FlowKey-discrete,
}
use monsa_ebpf.Advanced.Network.Xdp.{
  XdpEvent, XdpStats, XdpMd, XdpState, fresh_event, parse_packet, count_packet, xdp_pass,
}
use monsa_ebpf.Advanced.Network.Xdp.Bounds.{xdp_pass_in_bounds}
use monsa_ebpf.Advanced.Network.Xdp.Frames.{ipv4_frame, parse_packet-tcp}
use monsa_ebpf.Advanced.Network.Xdp.Verdict.{
  step as xdp_step, IsWord, bytes_of as xdp_bytes_of, on_cpu, xdp_pass_passes, lookup-run-xdp_pass,
}
use monsa_ebpf.Advanced.Network.Agreement.{headers_of, headers_of-flow_key}

-- 10.0.0.1:4096 to 10.0.0.2:80, with one word of IP options and the flags of a SYN.
abbrev from_ip : ℕ
from_ip = 10 * 2 ^ 24 + 1

abbrev to_ip : ℕ
to_ip = 10 * 2 ^ 24 + 2

abbrev filler : ℕ → ℕ
filler i = 0

abbrev tcp_frame : List ℕ
tcp_frame =
    ipv4_frame filler 1 6 from_ip to_ip (1 ∷ 1 ∷ 1 ∷ 1 ∷ []) (tcp_header filler 4096 80 2 [])

abbrev udp_frame : List ℕ
udp_frame = ipv4_frame filler 0 17 from_ip to_ip [] (udp_header filler 4096 53 (9 ∷ []))

-- The same, cut inside its TCP header.
abbrev cut_frame : List ℕ
cut_frame = ipv4_frame filler 1 6 from_ip to_ip (1 ∷ 1 ∷ 1 ∷ 1 ∷ []) (16 ∷ 0 ∷ [])

abbrev skb_of : List ℕ → SkBuff
skb_of frame = record { frame = frame; len = 58; mark = 0 }

abbrev md_of : List ℕ → XdpMd
md_of frame = record { frame = frame; ingress_ifindex = 2; rx_queue_index = 0 }

abbrev skb_state : {E : Type 0} {M : Type 0} → M → ℕ → E → State M (Ring E)
skb_state m limit old = record { counts = m; events = ring_of limit old; log = [] }

abbrev old_socket : SocketFilterEvent
old_socket = record {
  timestamp_ns = 0;
  saddr = 0;
  daddr = 0;
  sport = 0;
  dport = 0;
  protocol = 0;
  len = 0;
  count = 0;
}

abbrev old_tc : TcEvent
old_tc = record {
  timestamp_ns = 0;
  saddr = 0;
  daddr = 0;
  sport = 0;
  dport = 0;
  protocol = 0;
  len = 0;
  mark = 0;
  count = 0;
}

-- The destination as the little-endian machine reads it.
abbrev to_key : ℕ
to_key = 2 * 2 ^ 24 + 10

abbrev from_key : ℕ
from_key = 1 * 2 ^ 24 + 10

tcp_goes : GoesTo to_key (env_at 1, skb_of tcp_frame)
unfolding headers SocketFilter.ports load8 load16 load32 ihl stop_if ◌>>◌ bswap16
tcp_goes = (
  record { saddr = from_key; daddr = to_key; protocol = 6; sport = 4096; dport = 80 },
  refl,
  refl,
)

socket_filter_samples_example :
    length
      (run
        (socket_step words (memory_ring SocketFilterEvent))
        ((env_at 1, skb_of tcp_frame) ∷ (env_at 2, skb_of tcp_frame) ∷ [])
        (skb_state ((to_key, 98) ∷ []) 1 old_socket)).events.items
    ≡ 1
unfolding find ℕ_discrete take_slot has_slot
socket_filter_samples_example =
    socket_filter_samples words (memory_map-IsHash ℕ_discrete 4) (memory_ring SocketFilterEvent)
      (memory_ring-IsRing SocketFilterEvent)
      ((env_at 1, skb_of tcp_frame) ∷ (env_at 2, skb_of tcp_frame) ∷ [])
      (skb_state ((to_key, 98) ∷ []) 1 old_socket) to_key 98 (tcp_goes, (tcp_goes, tt)) refl
      (omega arith) (_, _, refl, λ evt. tt)

abbrev flow_map : HashMap FlowKey FlowStats
flow_map = memory_map FlowKey-discrete 4

abbrev tcp_key : FlowKey
tcp_key = record { saddr = from_key; daddr = to_key; sport = 4096; dport = 80; protocol = 6 }

abbrev flow_state : State (List (FlowKey × FlowStats)) (Ring TcEvent)
flow_state = skb_state ((tcp_key, record { packets = 5; bytes = 400 }) ∷ []) 1 old_tc

abbrev packets : List (Helpers × SkBuff)
packets =
    (env_at 1, skb_of tcp_frame)
    ∷ (other_at 2, skb_of udp_frame)
    ∷ (env_at 3, skb_of cut_frame)
    ∷ []

lookup-run-msb_tc_classifier_example :
    flow_map.lookup (run (tc_step flow_map (memory_ring TcEvent)) packets flow_state).counts tcp_key
    ≡ some (record {
      packets = add64 5 (packets_of tcp_key packets);
      bytes = add64 400 (bytes_of tcp_key packets);
    })
lookup-run-msb_tc_classifier_example =
    lookup-run-msb_tc_classifier flow_map (memory_map-IsHash FlowKey-discrete 4)
      (memory_ring TcEvent) tcp_key packets flow_state (record { packets = 5; bytes = 400 })
      (omega arith) (omega arith)
      (find-cons_self FlowKey-discrete [] tcp_key (record { packets = 5; bytes = 400 }))

headers_of-flow_key_example : headers tcp_frame ≡ map_run headers_of (flow_key tcp_frame)
headers_of-flow_key_example = headers_of-flow_key tcp_frame

abbrev old_xdp : XdpEvent
old_xdp = record {
  timestamp_ns = 0;
  ifindex = 0;
  rx_queue = 0;
  pkt_len = 0;
  eth_proto = 0;
  ip_proto = 0;
  action = 0;
  src_ip = 0;
  dst_ip = 0;
  src_port = 0;
  dst_port = 0;
  tcp_flags = 0;
}

-- Two CPUs.
abbrev cpu_map : PerCpuArray XdpStats
cpu_map = memory_array 2 1

abbrev source_map : HashMap ℕ ℕ
source_map = memory_lru ℕ_discrete 1

abbrev xdp_stats : XdpStats
xdp_stats = record { packets = 2; bytes = 120; dropped = 0; passed = 2 }

abbrev xdp_state : XdpState (ℕ → ℕ → XdpStats) (List (ℕ × ℕ)) (Ring XdpEvent)
xdp_state = record {
  statistics = λ cpu idx. xdp_stats;
  src_ip_counts = (1, 9) ∷ [];
  events = ring_of 1 old_xdp;
  log = [];
}

xdp_pass_in_bounds_example :
    xdp_pass cpu_map source_map (memory_ring XdpEvent) (env_at 1, md_of cut_frame) xdp_state ≢ fault
xdp_pass_in_bounds_example =
    xdp_pass_in_bounds cpu_map source_map (memory_ring XdpEvent) (env_at 1, md_of cut_frame)
      xdp_state

xdp_pass_passes_example :
    (r : ℕ × XdpState (ℕ → ℕ → XdpStats) (List (ℕ × ℕ)) (Ring XdpEvent)) × (xdp_pass cpu_map
        source_map
        (memory_ring XdpEvent)
        (env_at 1, md_of cut_frame)
        xdp_state
      ≡ done r)
    × (r.0 ≡ xdp_pass_action)
    × (r.1.statistics ≡ count_packet cpu_map 0 (low32 (length cut_frame)) xdp_state.statistics)
xdp_pass_passes_example =
    xdp_pass_passes cpu_map source_map (memory_ring XdpEvent) (env_at 1, md_of cut_frame) xdp_state

xdp_stats-IsWord : IsWord xdp_stats
xdp_stats-IsWord = record {
  packets_word = omega arith;
  bytes_word = omega arith;
  passed_word = omega arith;
}

-- The first and the last packet come on CPU 0, the second on CPU 1.
abbrev three_packets : List (Helpers × XdpMd)
three_packets =
    (env_at 1, md_of tcp_frame) ∷ (other_at 2, md_of tcp_frame) ∷ (env_at 3, md_of cut_frame) ∷ []

lookup-run-xdp_pass_example :
    cpu_map.lookup
      (run (xdp_step cpu_map source_map (memory_ring XdpEvent)) three_packets xdp_state).statistics
      0
      0
    ≡ some (record { packets = 4; bytes = 218; dropped = 0; passed = 4 })
unfolding slot ℕ_discrete on_cpu xdp_bytes_of add64 low32
lookup-run-xdp_pass_example =
    lookup-run-xdp_pass cpu_map (memory_array-IsPerCpuArray 2 1) source_map (memory_ring XdpEvent)
      three_packets xdp_state 0 xdp_stats xdp_stats-IsWord refl

abbrev tcp_event : XdpEvent
tcp_event = record (fresh_event (env_at 1) (md_of tcp_frame)) {
  eth_proto = 0x0800;
  ip_proto = 6;
  src_ip = from_ip;
  dst_ip = to_ip;
  src_port = 4096;
  dst_port = 80;
  tcp_flags = 2;
}

parse_packet-tcp_example :
    parse_packet tcp_frame (fresh_event (env_at 1) (md_of tcp_frame)) ≡ done tcp_event
parse_packet-tcp_example =
    parse_packet-tcp filler 1 from_ip to_ip 4096 80 (1 ∷ 1 ∷ 1 ∷ 1 ∷ []) []
      (fresh_event (env_at 1) (md_of tcp_frame)) (omega arith) refl (omega arith) (omega arith)
      (omega arith) (omega arith) 2
