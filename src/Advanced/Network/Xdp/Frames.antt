-- ===== src/Advanced/Network/Xdp/Frames.antt =====
-- `parse_packet` of xdp_pass.bpf.c on the frames that a sender builds.
use monsa_ebpf.Base.{ℕ, ◌+◌, ◌*◌, ◌^◌, ◌<◌, ◌≤◌, ◌≡◌, refl, ap, ◌∙◌, arith, false}
use monsa_ebpf.Base.{List, ◌++◌, length, length-append, ltb, ◌==◌, if◌then◌else◌}
use monsa_ebpf.Base.{bswap16, bswap32, bswap16-bswap16, bswap32-bswap32}
use monsa_ebpf.Packet.{done, ◌>>=◌, ◌>>◌, stop_if, load8, load16, load32, ihl, eth_p_ip}
use monsa_ebpf.Packet.Frame.{
  be16, ipv4_headers, tcp_header, udp_header, load8-append, load16-append, load16-be16,
}
use monsa_ebpf.Advanced.Network.Xdp.{XdpEvent, parse_tcp, parse_udp, parse_ipv4, parse_packet}

-- An IPv4 frame with `n` words of options before its payload `l4`.
abbrev pub ipv4_frame : (ℕ → ℕ) → ℕ → ℕ → ℕ → ℕ → List ℕ → List ℕ → List ℕ
ipv4_frame m n protocol saddr daddr options l4 =
    ipv4_headers m n protocol saddr daddr ++ (options ++ l4)

module _ (m : ℕ → ℕ) (n protocol saddr daddr : ℕ) (options l4 : List ℕ) (small : n ≤ 10)
    (fits : length options ≡ 4 * n) where
  frame : List ℕ
  frame = ipv4_frame m n protocol saddr daddr options l4

  load8_l4 : (j : ℕ) → load8 frame (14 + (5 + n) * 4 + j) ≡ load8 l4 j
  unfolding frame
  load8_l4 j =
      load8-append (ipv4_headers m n protocol saddr daddr) (options ++ l4) _ (4 * n + j)
        (omega arith)
      ∙ load8-append options l4 _ j (omega arith)

  load16_l4 : (j : ℕ) → load16 frame (14 + (5 + n) * 4 + j) ≡ load16 l4 j
  unfolding frame
  load16_l4 j =
      load16-append (ipv4_headers m n protocol saddr daddr) (options ++ l4) _ (4 * n + j)
        (omega arith)
      ∙ load16-append options l4 _ j (omega arith)

  ihl_frame : ihl frame 14 ≡ done (5 + n)
  unfolding frame ihl load8
  ihl_frame = ap done (omega arith)

  length_frame : length frame ≡ 14 + (5 + n) * 4 + length l4
  unfolding frame
  length_frame = omega (arith, length-append options l4)

  proto_frame : load16 frame 12 ≡ done (bswap16 eth_p_ip)
  unfolding frame load16 bswap16
  proto_frame = refl

  protocol_frame : load8 frame (14 + 9) ≡ done protocol
  unfolding frame load8
  protocol_frame = refl

  saddr_frame : saddr < 2 ^ 32 → load32 frame (14 + 12) ≡ done (bswap32 saddr)
  unfolding frame load32 bswap32
  saddr_frame h = ap done (omega arith)

  daddr_frame : daddr < 2 ^ 32 → load32 frame (14 + 16) ≡ done (bswap32 daddr)
  unfolding frame load32 bswap32
  daddr_frame h = ap done (omega arith)

  not_short : (k : ℕ) → k ≤ 34 → ltb (length frame) k ≡ false
  not_short k h = let e = length_frame in ground arith

  parse_ipv4_frame :
      (evt : XdpEvent)
      → saddr < 2 ^ 32
      → daddr < 2 ^ 32
      → parse_packet frame evt ≡ (
          let evt' : XdpEvent = record evt {
            eth_proto = 0x0800;
            ip_proto = protocol;
            src_ip = saddr;
            dst_ip = daddr;
          } in
          if protocol == 6
          then parse_tcp frame 14 evt'
          else (if protocol == 17 then parse_udp frame 14 evt' else done evt'))
  unfolding parse_packet parse_ipv4 ◌>>◌ stop_if bswap16
  parse_ipv4_frame evt p q = rw (
    not_short 14 (omega arith),
    proto_frame,
    not_short 34 (omega arith),
    protocol_frame,
    saddr_frame p,
    daddr_frame q,
    bswap32-bswap32 saddr p,
    bswap32-bswap32 daddr q,
  )

  source_l4 : (v : ℕ) → load16 l4 0 ≡ done v → load16 frame (14 + (5 + n) * 4) ≡ done v
  source_l4 v h = ap (load16 frame) (omega arith) ∙ load16_l4 0 ∙ h

  room_l4 : (k : ℕ) → k ≤ length l4 → ltb (length frame) (14 + (5 + n) * 4 + k) ≡ false
  room_l4 k h = let e = length_frame in ground arith

  parse_tcp_frame :
      (evt : XdpEvent) (s d f : ℕ)
      → 20 ≤ length l4
      → load16 l4 0 ≡ done s
      → load16 l4 2 ≡ done d
      → load8 l4 13 ≡ done f
      → parse_tcp frame 14 evt
        ≡ done (record evt { src_port = bswap16 s; dst_port = bswap16 d; tcp_flags = f })
  unfolding parse_tcp ◌>>=◌
  parse_tcp_frame evt s d f long p q r =
      rw (ihl_frame, room_l4 20 long, source_l4 s p, load16_l4 2 ∙ q, load8_l4 13 ∙ r)

  parse_udp_frame :
      (evt : XdpEvent) (s d : ℕ)
      → 8 ≤ length l4
      → load16 l4 0 ≡ done s
      → load16 l4 2 ≡ done d
      → parse_udp frame 14 evt ≡ done (record evt { src_port = bswap16 s; dst_port = bswap16 d })
  unfolding parse_udp ◌>>=◌
  parse_udp_frame evt s d long p q = rw (ihl_frame, room_l4 8 long, source_l4 s p, load16_l4 2 ∙ q)

-- The second port of a transport header.
load16_dest :
    (sport dport : ℕ) (rest : List ℕ)
    → dport < 2 ^ 16
    → load16 (be16 sport (be16 dport rest)) 2 ≡ done (bswap16 dport)
unfolding load16
load16_dest sport dport rest h = load16-be16 dport rest h

module _ (m : ℕ → ℕ) (n saddr daddr sport dport : ℕ) (options payload : List ℕ) (evt : XdpEvent)
    (small : n ≤ 10) (fits : length options ≡ 4 * n) (s_word : saddr < 2 ^ 32)
    (d_word : daddr < 2 ^ 32) (s_port : sport < 2 ^ 16) (d_port : dport < 2 ^ 16) where
  -- On a frame with a TCP segment behind an IPv4 header of up to ten option words, built from
  -- 32-bit addresses and 16-bit ports, the parse succeeds, and the event holds the addresses, ports
  -- and flags that the sender wrote. The bytes that matter to no field are arbitrary.
  pub parse_packet-tcp :
      (flags : ℕ)
      → parse_packet
          (ipv4_frame m n 6 saddr daddr options (tcp_header m sport dport flags payload))
          evt
        ≡ done (record evt {
          eth_proto = 0x0800;
          ip_proto = 6;
          src_ip = saddr;
          dst_ip = daddr;
          src_port = sport;
          dst_port = dport;
          tcp_flags = flags;
        })
  unfolding frame load8
  parse_packet-tcp flags =
      let l4 = tcp_header m sport dport flags payload in
      parse_ipv4_frame m n 6 saddr daddr options l4 small fits evt s_word d_word
      ∙ parse_tcp_frame m n 6 saddr daddr options l4 small fits _ _ _ flags (omega arith)
          (load16-be16 sport _ s_port) (load16_dest sport dport _ d_port) refl
      ∙ rw (bswap16-bswap16 sport s_port, bswap16-bswap16 dport d_port)

  -- On a frame with a UDP datagram behind such a header, the parse succeeds, and the event holds
  -- the addresses and ports that the sender wrote, with its flags as they were before.
  pub parse_packet-udp :
      parse_packet (ipv4_frame m n 17 saddr daddr options (udp_header m sport dport payload)) evt
      ≡ done (record evt {
        eth_proto = 0x0800;
        ip_proto = 17;
        src_ip = saddr;
        dst_ip = daddr;
        src_port = sport;
        dst_port = dport;
      })
  unfolding frame
  parse_packet-udp =
      let l4 = udp_header m sport dport payload in
      parse_ipv4_frame m n 17 saddr daddr options l4 small fits evt s_word d_word
      ∙ parse_udp_frame m n 17 saddr daddr options l4 small fits _ _ _ (omega arith)
          (load16-be16 sport _ s_port) (load16_dest sport dport _ d_port)
      ∙ rw (bswap16-bswap16 sport s_port, bswap16-bswap16 dport d_port)
