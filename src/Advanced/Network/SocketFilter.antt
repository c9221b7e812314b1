-- ===== src/Advanced/Network/SocketFilter.antt =====
-- S2-advanced/examples/network/socket_filter/example_socket_filter.bpf.c: a sample of the IPv4
-- packets of each destination.
pub mod Flow
use monsa_ebpf.Base.{ℕ, ◌+◌, ◌*◌, Bool, true, false, Option, none, some, List, [], ◌∷◌, ◌≡◌, ◌≢◌}
use monsa_ebpf.Base.{bswap16, length, ltb, ◌≤◌, arith, ◌==◌, if◌then◌else◌, not}
use monsa_ebpf.Kernel.{Helpers, HashMap, RingBuf, Line}
use monsa_ebpf.Counting.{State, sampled_step}
use monsa_ebpf.Packet.Loads.{
  if_safe, stop_if_safe, load8_bind, load16_bind, load32_bind, bind_safe, done_safe, ihl_bind,
  ports_bind,
}
use monsa_ebpf.Packet.{
  SkBuff, Run, fault, stop, done, ◌>>=◌, ◌>>◌, stop_if, sizeof_ethhdr, sizeof_iphdr, sizeof_tcphdr,
  sizeof_udphdr, eth_p_ip, ipproto_tcp, ipproto_udp, load8, load16, load32, h_proto, ihl,
  ip_protocol, ip_saddr, ip_daddr, port_source, port_dest,
}

pub record SocketFilterEvent : Type 0 where
  pub timestamp_ns : ℕ
  pub saddr : ℕ
  pub daddr : ℕ
  pub sport : ℕ
  pub dport : ℕ
  pub protocol : ℕ
  pub len : ℕ
  pub count : ℕ

-- The local variables after the headers are read.
pub record Headers : Type 0 where
  pub saddr : ℕ
  pub daddr : ℕ
  pub protocol : ℕ
  pub sport : ℕ
  pub dport : ℕ

-- The ports; zero for other protocols. An early `return 0` is a `stop`.
unfoldable pub ports : List ℕ → ℕ → ℕ → Run (ℕ × ℕ)
ports frame ip protocol =
    if protocol == ipproto_tcp
    then (do
      words ← ihl frame ip
      let tcp = ip + words * 4
      stop_if (ltb (length frame) (tcp + sizeof_tcphdr))
      source ← port_source frame tcp
      dest ← port_dest frame tcp
      done (bswap16 source, bswap16 dest))
    else (if protocol == ipproto_udp
        then (do
          words ← ihl frame ip
          let udp = ip + words * 4
          stop_if (ltb (length frame) (udp + sizeof_udphdr))
          source ← port_source frame udp
          dest ← port_dest frame udp
          done (bswap16 source, bswap16 dest))
        else done (0, 0))

unfoldable pub headers : List ℕ → Run Headers
headers frame = do
  stop_if (ltb (length frame) sizeof_ethhdr)
  proto ← h_proto frame
  stop_if (not (proto == bswap16 eth_p_ip))
  let ip = sizeof_ethhdr
  stop_if (ltb (length frame) (ip + sizeof_iphdr))
  saddr ← ip_saddr frame ip
  daddr ← ip_daddr frame ip
  protocol ← ip_protocol frame ip
  (sport, dport) ← ports frame ip protocol
  done (record { saddr = saddr; daddr = daddr; protocol = protocol; sport = sport; dport = dport })

unfoldable pub fill : Helpers → SkBuff → Headers → ℕ → SocketFilterEvent → SocketFilterEvent
fill env skb h new_count evt = record {
  timestamp_ns = env.ktime_ns;
  saddr = h.saddr;
  daddr = h.daddr;
  sport = h.sport;
  dport = h.dport;
  protocol = h.protocol;
  len = skb.len;
  count = new_count;
}

-- `fault` is a read outside the packet.
unfoldable pub msb_socket_filter :
    (H : HashMap ℕ ℕ) (R : RingBuf SocketFilterEvent)
    → Helpers × SkBuff
    → State H.Map R.Buf
    → Run (ℕ × State H.Map R.Buf)
msb_socket_filter H R (env, skb) s = elim (headers skb.frame) [
  | fault ↦ fault
  | stop ↦ done (0, s)
  | done h ↦ done (0, sampled_step H R h.daddr (fill env skb h) (λ _ _. []) s)
]

ports-ne-fault :
    (frame : List ℕ) (ip protocol : ℕ) → ip + 20 ≤ length frame → ports frame ip protocol ≢ fault
unfolding ports
ports-ne-fault frame ip protocol h =
    if_safe (protocol == 6) _ _
      (λ _.
        ihl_bind frame ip _ (omega arith)
          λ words. ports_bind frame (ip + words * 4) 20 _ (omega arith) λ s d _. done_safe _)
      (λ _.
        if_safe (protocol == 17) _ _
          (λ _.
            ihl_bind frame ip _ (omega arith)
              λ words. ports_bind frame (ip + words * 4) 8 _ (omega arith) λ s d _. done_safe _)
          (λ _. done_safe _))

-- No packet makes the program read outside its bytes.
pub headers-ne-fault : (frame : List ℕ) → headers frame ≢ fault
unfolding headers
headers-ne-fault frame = stop_if_safe (ltb (length frame) 14) _ λ t.
    load16_bind frame 12 _ (ground arith) λ proto. stop_if_safe _ _ λ _.
      stop_if_safe (ltb (length frame) 34) _ λ u.
        let fits : 34 ≤ length frame = ground arith in
        load32_bind frame 26 _ (omega arith) λ saddr. load32_bind frame 30 _ (omega arith) λ daddr.
          load8_bind frame 23 _ (omega arith) λ protocol.
            bind_safe _ _ (ports-ne-fault frame 14 protocol (omega arith)) λ p. done_safe _
