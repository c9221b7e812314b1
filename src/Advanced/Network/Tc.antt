-- ===== src/Advanced/Network/Tc.antt =====
-- S2-advanced/examples/network/tc/example_tc_classifier.bpf.c: packet and byte counters for each
-- flow, and a sample of the packets.
pub mod Bounds
pub mod Flow
use monsa_ebpf.Base.{ℕ, ℤ, pos, negsuc, ◌+◌, ◌*◌, ◌%◌, ◌≤◌, ◌≡◌, ◌≢◌, Bool, true, false, not, ◌&&◌}
use monsa_ebpf.Base.{
  Option, none, some, List, [], ◌∷◌, ◌++◌, arith, length, ltb, ◌==◌, if◌then◌else◌,
}
use monsa_ebpf.Base.{add64, low32, bswap16, bswap32}
use monsa_ebpf.Kernel.{Helpers, HashMap, RingBuf, Line, word, tc_act_ok, xdp_pass_action}
use monsa_ebpf.Counting.{State, hit, emit, sampled, sampled_step}
use monsa_ebpf.Packet.Loads.{
  if_safe, stop_if_safe, load8_bind, load16_bind, load32_bind, bind_safe, done_safe, ihl_bind,
  ports_bind,
}
use monsa_ebpf.Packet.{
  SkBuff, Run, fault, stop, done, ◌>>=◌, ◌>>◌, stop_if, sizeof_ethhdr, sizeof_iphdr, sizeof_tcphdr,
  sizeof_udphdr, eth_p_ip, ipproto_tcp, ipproto_udp, load8, load16, load32, h_proto, ihl,
  ip_protocol, ip_saddr, ip_daddr, port_source, port_dest, tcp_flag_byte,
}

pub record TcEvent : Type 0 where
  pub timestamp_ns : ℕ
  pub saddr : ℕ
  pub daddr : ℕ
  pub sport : ℕ
  pub dport : ℕ
  pub protocol : ℕ
  pub len : ℕ
  pub mark : ℕ
  pub count : ℕ

pub record FlowKey : Type 0 where
  pub saddr : ℕ
  pub daddr : ℕ
  pub sport : ℕ
  pub dport : ℕ
  pub protocol : ℕ

pub record FlowStats : Type 0 where
  pub packets : ℕ
  pub bytes : ℕ

-- The ports; zero for other protocols. An early `return TC_ACT_OK` is a `stop`.
unfoldable pub ports : List ℕ → ℕ → ℕ → Run (ℕ × ℕ)
ports frame ip protocol =
    if protocol == ipproto_tcp
    then (do
      words ← ihl frame ip
      let tcp = ip + words * 4
      stop_if (ltb (length frame) (tcp + sizeof_tcphdr))
      source ← port_source frame tcp
      dest ← port_dest frame tcp
      done (bswap16 source, bswap16 dest))
    else (if protocol == ipproto_udp
        then (do
          words ← ihl frame ip
          let udp = ip + words * 4
          stop_if (ltb (length frame) (udp + sizeof_udphdr))
          source ← port_source frame udp
          dest ← port_dest frame udp
          done (bswap16 source, bswap16 dest))
        else done (0, 0))

unfoldable pub flow_key : List ℕ → Run FlowKey
flow_key frame = do
  stop_if (ltb (length frame) sizeof_ethhdr)
  proto ← h_proto frame
  stop_if (not (proto == bswap16 eth_p_ip))
  let ip = sizeof_ethhdr
  stop_if (ltb (length frame) (ip + sizeof_iphdr))
  saddr ← ip_saddr frame ip
  daddr ← ip_daddr frame ip
  protocol ← ip_protocol frame ip
  (sport, dport) ← ports frame ip protocol
  done (record { saddr = saddr; daddr = daddr; sport = sport; dport = dport; protocol = protocol })

-- The map update. The second part is what `stats` points to afterwards; `none` is NULL.
unfoldable pub track :
    (H : HashMap FlowKey FlowStats) → FlowKey → ℕ → H.Map → H.Map × Option FlowStats
track H key len m = elim (H.lookup m key) [
  | none ↦ (H.update m key (record { packets = 1; bytes = len }), none)
  | some st ↦
      let st' : FlowStats = record st {
        packets = add64 st.packets 1;
        bytes = add64 st.bytes len;
      } in
      (H.store m key st', some st')
]

unfoldable pub fill : Helpers → SkBuff → FlowKey → Option FlowStats → TcEvent → TcEvent
fill env skb key stats evt = record {
  timestamp_ns = env.ktime_ns;
  saddr = key.saddr;
  daddr = key.daddr;
  sport = key.sport;
  dport = key.dport;
  protocol = key.protocol;
  len = skb.len;
  mark = skb.mark;
  count = elim stats [ some st ↦ st.packets | none ↦ 1 ];
}

unfoldable pub lines : SkBuff → FlowKey → TcEvent → List Line
lines skb key evt =
    record {
      format = "tc: %x:%u -> %x:%u proto=%u len=%u\n";
      args =
          word key.saddr
          ∷ word key.sport
          ∷ word key.daddr
          ∷ word key.dport
          ∷ word key.protocol
          ∷ word skb.len
          ∷ [];
    }
    ∷ []

-- `stats && (stats->packets % 100) != 0`
unfoldable pub skipped : Option FlowStats → Bool
skipped none = false
skipped (some st) = not (st.packets % 100 == 0)

unfoldable pub flow_step :
    (H : HashMap FlowKey FlowStats) (R : RingBuf TcEvent)
    → Helpers
    → SkBuff
    → FlowKey
    → State H.Map R.Buf
    → State H.Map R.Buf
flow_step H R env skb key s =
    let (counts, stats) = track H key skb.len s.counts in
    let s' = record s { counts = counts } in
    if skipped stats then s' else emit R (fill env skb key stats) (lines skb key) s'

unfoldable pub msb_tc_classifier :
    (H : HashMap FlowKey FlowStats) (R : RingBuf TcEvent)
    → Helpers × SkBuff
    → State H.Map R.Buf
    → Run (ℕ × State H.Map R.Buf)
msb_tc_classifier H R (env, skb) s = elim (flow_key skb.frame) [
  | fault ↦ fault
  | stop ↦ done (tc_act_ok, s)
  | done key ↦ done (tc_act_ok, flow_step H R env skb key s)
]
