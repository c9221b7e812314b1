-- ===== src/Advanced/Network/Xdp/Bounds.antt =====
-- The reads of `parse_packet` in xdp_pass.bpf.c stay within the packet, and its return codes.
use monsa_ebpf.Base.{ℕ, ◌+◌, ◌*◌, ◌≤◌, ◌≢◌, List, arith, length, ltb, ◌==◌, bswap16}
use monsa_ebpf.Kernel.PerCpu.{PerCpuArray}
use monsa_ebpf.Kernel.{Helpers, HashMap, RingBuf}
use monsa_ebpf.Packet.{fault, eth_p_ip}
use monsa_ebpf.Packet.Loads.{
  if_safe, stop_if_safe, load8_bind, load16_bind, load32_bind, done_safe, ihl_bind,
}
use monsa_ebpf.Advanced.Network.Xdp.{
  XdpEvent, XdpStats, XdpMd, XdpState, fresh_event, parse_tcp, parse_udp, parse_ipv4, parse_packet,
  xdp_pass,
}

parse_tcp-ne-fault :
    (frame : List ℕ) (ip : ℕ) (evt : XdpEvent)
    → ip + 20 ≤ length frame
    → parse_tcp frame ip evt ≢ fault
unfolding parse_tcp
parse_tcp-ne-fault frame ip evt h = ihl_bind frame ip _ (omega arith) λ words.
    if_safe (ltb (length frame) (ip + words * 4 + 20)) _ _ (λ _. done_safe _)
      λ t. load16_bind frame (ip + words * 4) _ (ground arith) λ s.
        load16_bind frame (ip + words * 4 + 2) _ (ground arith)
          λ d. load8_bind frame (ip + words * 4 + 13) _ (ground arith) λ f. done_safe _

parse_udp-ne-fault :
    (frame : List ℕ) (ip : ℕ) (evt : XdpEvent)
    → ip + 20 ≤ length frame
    → parse_udp frame ip evt ≢ fault
unfolding parse_udp
parse_udp-ne-fault frame ip evt h = ihl_bind frame ip _ (omega arith) λ words.
    if_safe (ltb (length frame) (ip + words * 4 + 8)) _ _ (λ _. done_safe _)
      λ t.
        load16_bind frame (ip + words * 4) _ (ground arith)
          λ s. load16_bind frame (ip + words * 4 + 2) _ (ground arith) λ d. done_safe _

parse_ipv4-ne-fault : (frame : List ℕ) (ip : ℕ) (evt : XdpEvent) → parse_ipv4 frame ip evt ≢ fault
unfolding parse_ipv4
parse_ipv4-ne-fault frame ip evt = stop_if_safe (ltb (length frame) (ip + 20)) _ λ t.
    load8_bind frame (ip + 9) _ (ground arith) λ protocol.
      load32_bind frame (ip + 12) _ (ground arith) λ saddr.
        load32_bind frame (ip + 16) _ (ground arith) λ daddr.
          if_safe (protocol == 6) _ _ (λ _. parse_tcp-ne-fault frame ip _ (ground arith))
            λ _.
              if_safe (protocol == 17) _ _ (λ _. parse_udp-ne-fault frame ip _ (ground arith))
                λ _. done_safe _

pub parse_packet-ne-fault : (frame : List ℕ) (evt : XdpEvent) → parse_packet frame evt ≢ fault
unfolding parse_packet
parse_packet-ne-fault frame evt = stop_if_safe (ltb (length frame) 14) _ λ t.
    load16_bind frame 12 _ (ground arith) λ proto.
      if_safe (bswap16 proto == eth_p_ip) _ _ (λ _. parse_ipv4-ne-fault frame 14 _) λ _. done_safe _

-- No packet makes the program read outside the packet's bytes.
pub xdp_pass_in_bounds :
    (A : PerCpuArray XdpStats) (C : HashMap ℕ ℕ) (R : RingBuf XdpEvent) (i : Helpers × XdpMd)
    (s : XdpState A.Map C.Map R.Buf)
    → xdp_pass A C R i s ≢ fault
unfolding xdp_pass
xdp_pass_in_bounds A C R (env, ctx) s =
    let h = parse_packet-ne-fault ctx.frame (fresh_event env ctx) in ground arith
