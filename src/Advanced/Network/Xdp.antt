-- ===== src/Advanced/Network/Xdp.antt =====
-- S2-advanced/examples/network/xdp/xdp_pass.bpf.c: header parsing, per-CPU statistics, a counter
-- for each source address, and a sample of the packets.
pub mod Bounds
pub mod Verdict
pub mod Frames
use monsa_ebpf.Base.{ℕ, ℤ, pos, negsuc, ◌+◌, ◌*◌, ◌%◌, ◌≤◌, ◌≡◌, ◌≢◌, Bool, true, false, not, ◌&&◌}
use monsa_ebpf.Base.{
  Option, none, some, List, [], ◌∷◌, ◌++◌, arith, length, ltb, ◌==◌, if◌then◌else◌,
}
use monsa_ebpf.Base.{add64, low32, bswap16, bswap32}
use monsa_ebpf.Kernel.PerCpu.{PerCpuArray}
use monsa_ebpf.Kernel.{Helpers, HashMap, RingBuf, Line, word, tc_act_ok, xdp_pass_action}
use monsa_ebpf.Counting.{State, hit, emit, sampled, sampled_step}
use monsa_ebpf.Packet.Loads.{
  if_safe, stop_if_safe, load8_bind, load16_bind, load32_bind, bind_safe, done_safe, ihl_bind,
  ports_bind,
}
use monsa_ebpf.Packet.{
  SkBuff, Run, fault, stop, done, ◌>>=◌, ◌>>◌, stop_if, sizeof_ethhdr, sizeof_iphdr, sizeof_tcphdr,
  sizeof_udphdr, eth_p_ip, ipproto_tcp, ipproto_udp, load8, load16, load32, h_proto, ihl,
  ip_protocol, ip_saddr, ip_daddr, port_source, port_dest, tcp_flag_byte,
}

pub record XdpEvent : Type 0 where
  pub timestamp_ns : ℕ
  pub ifindex : ℕ
  pub rx_queue : ℕ
  pub pkt_len : ℕ
  pub eth_proto : ℕ
  pub ip_proto : ℕ
  pub action : ℕ
  pub src_ip : ℕ
  pub dst_ip : ℕ
  pub src_port : ℕ
  pub dst_port : ℕ
  pub tcp_flags : ℕ

pub record XdpStats : Type 0 where
  pub packets : ℕ
  pub bytes : ℕ
  pub dropped : ℕ
  pub passed : ℕ

-- `struct xdp_md`
pub record XdpMd : Type 0 where
  pub frame : List ℕ  -- the bytes from `data` to `data_end`
  pub ingress_ifindex : ℕ
  pub rx_queue_index : ℕ

-- The stores of `parse_packet` for one transport header.
unfoldable pub parse_tcp : List ℕ → ℕ → XdpEvent → Run XdpEvent
parse_tcp frame ip evt = do
  words ← ihl frame ip
  let tcp = ip + words * 4
  if ltb (length frame) (tcp + sizeof_tcphdr) then done evt else (do
    source ← port_source frame tcp
    dest ← port_dest frame tcp
    flags ← tcp_flag_byte frame tcp
    done (record evt { src_port = bswap16 source; dst_port = bswap16 dest; tcp_flags = flags }))

unfoldable pub parse_udp : List ℕ → ℕ → XdpEvent → Run XdpEvent
parse_udp frame ip evt = do
  words ← ihl frame ip
  let udp = ip + words * 4
  if ltb (length frame) (udp + sizeof_udphdr) then done evt else (do
    source ← port_source frame udp
    dest ← port_dest frame udp
    done (record evt { src_port = bswap16 source; dst_port = bswap16 dest }))

unfoldable pub parse_ipv4 : List ℕ → ℕ → XdpEvent → Run XdpEvent
parse_ipv4 frame ip evt = do
  stop_if (ltb (length frame) (ip + sizeof_iphdr))
  protocol ← ip_protocol frame ip
  saddr ← ip_saddr frame ip
  daddr ← ip_daddr frame ip
  let evt' : XdpEvent = record evt {
    ip_proto = protocol;
    src_ip = bswap32 saddr;
    dst_ip = bswap32 daddr;
  }
  if protocol == ipproto_tcp
      then parse_tcp frame ip evt'
      else (if protocol == ipproto_udp then parse_udp frame ip evt' else done evt')

-- `stop` is `return -1`; `done evt` is `return 0`, with the event as the code leaves it.
unfoldable pub parse_packet : List ℕ → XdpEvent → Run XdpEvent
parse_packet frame evt = do
  stop_if (ltb (length frame) sizeof_ethhdr)
  proto ← h_proto frame
  let evt' : XdpEvent = record evt { eth_proto = bswap16 proto }
  if bswap16 proto == eth_p_ip then parse_ipv4 frame sizeof_ethhdr evt' else done evt'

-- The maps: the statistics, one slot for each CPU, the source counters, the ring, the trace log.
pub record XdpState (S C B : Type 0) : Type 0 where
  pub statistics : S
  pub src_ip_counts : C
  pub events : B
  pub log : List Line

-- On the slot of the running CPU.
unfoldable pub count_packet : (A : PerCpuArray XdpStats) → ℕ → ℕ → A.Map → A.Map
count_packet A cpu pkt_len m = elim (A.lookup m cpu 0) [
  | none ↦ m
  | some st ↦ A.store m cpu 0 (record st {
    packets = add64 st.packets 1;
    bytes = add64 st.bytes pkt_len;
    passed = add64 st.passed 1;
  })
]

-- `struct xdp_event evt = {}` and the stores before the parse.
unfoldable pub fresh_event : Helpers → XdpMd → XdpEvent
fresh_event env ctx = record {
  timestamp_ns = env.ktime_ns;
  ifindex = ctx.ingress_ifindex;
  rx_queue = ctx.rx_queue_index;
  pkt_len = low32 (length ctx.frame);
  eth_proto = 0;
  ip_proto = 0;
  action = xdp_pass_action;
  src_ip = 0;
  dst_ip = 0;
  src_port = 0;
  dst_port = 0;
  tcp_flags = 0;
}

unfoldable pub lines : XdpEvent → List Line
lines evt =
    if evt.ip_proto == ipproto_tcp && not (evt.tcp_flags == 0)
    then record {
      format = "XDP: TCP %pI4:%u -> %pI4:%u flags=0x%x\n";
      args =
          word evt.src_ip
          ∷ word evt.src_port
          ∷ word evt.dst_ip
          ∷ word evt.dst_port
          ∷ word evt.tcp_flags
          ∷ [];
    }
      ∷ []
    else []

module _ (A : PerCpuArray XdpStats) (C : HashMap ℕ ℕ) (R : RingBuf XdpEvent) where
  -- The sampled copy into the ring: one nanosecond in a hundred.
  unfoldable pub sample : XdpEvent → R.Buf → R.Buf
  sample evt b =
      if evt.timestamp_ns % 100 == 0
      then elim (R.reserve b) [ none ↦ b | some (b', _) ↦ R.submit b' evt ]
      else b

  -- What follows a parse that returned 0.
  unfoldable pub record_event : XdpEvent → XdpState A.Map C.Map R.Buf → XdpState A.Map C.Map R.Buf
  unfolding sample
  record_event evt s = record s {
    src_ip_counts =
        if evt.src_ip == 0 then s.src_ip_counts else (hit C s.src_ip_counts evt.src_ip).0;
    events = sample evt s.events;
    log = s.log ++ lines evt;
  }

  unfoldable pub xdp_pass :
      Helpers × XdpMd → XdpState A.Map C.Map R.Buf → Run (ℕ × XdpState A.Map C.Map R.Buf)
  xdp_pass (env, ctx) s =
      let s' = record s {
        statistics = count_packet A env.cpu (low32 (length ctx.frame)) s.statistics;
      } in
      elim (parse_packet ctx.frame (fresh_event env ctx)) [
        | fault ↦ fault
        | stop ↦ done (xdp_pass_action, s')
        | done evt ↦ done (xdp_pass_action, record_event evt s')
      ]
