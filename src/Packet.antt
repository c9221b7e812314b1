-- ===== src/Packet.antt =====
-- Packet data as the programs of S2-advanced/examples/network and cgroup_skb reach it: bytes from
-- `data` up to `data_end`, read through pointers. A pointer is an offset from `data`, and a read
-- outside the bytes is a `fault`. Multi-byte reads are those of a little-endian machine, for
-- which the programs define `bpf_ntohs` as a byte swap.
pub mod Loads
pub mod Frame
use monsa_ebpf.Base.{ℕ, suc, ◌+◌, ◌*◌, ◌%◌, ◌^◌, Bool, true, false, List, Option, none, some}
use monsa_ebpf.Base.{get_elem?, length}

-- Code that reads a packet: it faults, takes an early exit, or goes on with a value.
pub data Run (A : Type 0) : Type 0 where
  fault : Run A
  stop : Run A
  done : A → Run A

infixl 5 ◌>>=◌ ◌>>◌
unfoldable pub ◌>>=◌ : {A B : Type 0} → Run A → (A → Run B) → Run B
fault >>= f = fault
stop >>= f = stop
done a >>= f = f a

unfoldable pub ◌>>◌ : {B : Type 0} → Run (Unit {0}) → Run B → Run B
unfolding ◌>>=◌
m >> k = m >>= λ _. k

unfoldable pub map_run : {A B : Type 0} → (A → B) → Run A → Run B
map_run f fault = fault
map_run f stop = stop
map_run f (done a) = done (f a)

-- `if (test) return …;`
unfoldable pub stop_if : Bool → Run (Unit {0})
stop_if true = stop
stop_if false = done tt

-- The verdict and the state after a run, for a sequence of runs.
unfoldable pub settle : {S : Type 0} → Run (ℕ × S) → S → ℕ × S
settle fault s = (0, s)
settle stop s = (0, s)
settle (done r) s = r

-- `struct __sk_buff`
pub record SkBuff : Type 0 where
  pub frame : List ℕ  -- the bytes from `data` to `data_end`
  pub len : ℕ
  pub mark : ℕ

-- Sizes of the headers of `linux/if_ether.h`, `linux/ip.h`, `linux/tcp.h` and `linux/udp.h`.
abbrev pub sizeof_ethhdr : ℕ
sizeof_ethhdr = 14

abbrev pub sizeof_iphdr : ℕ
sizeof_iphdr = 20

abbrev pub sizeof_tcphdr : ℕ
sizeof_tcphdr = 20

abbrev pub sizeof_udphdr : ℕ
sizeof_udphdr = 8

-- `ETH_P_IP`, `IPPROTO_TCP` and `IPPROTO_UDP`, as xdp_pass.bpf.c spells them.
abbrev pub eth_p_ip : ℕ
eth_p_ip = 0x0800

abbrev pub ipproto_tcp : ℕ
ipproto_tcp = 6

abbrev pub ipproto_udp : ℕ
ipproto_udp = 17

unfoldable pub load8 : List ℕ → ℕ → Run ℕ
load8 frame p = elim (get_elem? frame p) [ none ↦ fault | some a ↦ done a ]

unfoldable pub load16 : List ℕ → ℕ → Run ℕ
unfolding load8 ◌>>=◌
load16 frame p = do a ← load8 frame p; b ← load8 frame (p + 1); done (a + 256 * b)

unfoldable pub load32 : List ℕ → ℕ → Run ℕ
unfolding load16
load32 frame p = do a ← load16 frame p; b ← load16 frame (p + 2); done (a + 2 ^ 16 * b)

-- The fields of the headers: `eth` at 0, `ip` at its offset, `tcp` or `udp` at theirs.
abbrev pub h_proto : List ℕ → Run ℕ
h_proto frame = load16 frame 12

-- The low four bits of the first byte.
unfoldable pub ihl : List ℕ → ℕ → Run ℕ
unfolding load8 ◌>>=◌
ihl frame ip = do a ← load8 frame ip; done (a % 16)

abbrev pub ip_protocol : List ℕ → ℕ → Run ℕ
ip_protocol frame ip = load8 frame (ip + 9)

abbrev pub ip_saddr : List ℕ → ℕ → Run ℕ
ip_saddr frame ip = load32 frame (ip + 12)

abbrev pub ip_daddr : List ℕ → ℕ → Run ℕ
ip_daddr frame ip = load32 frame (ip + 16)

abbrev pub port_source : List ℕ → ℕ → Run ℕ
port_source frame l4 = load16 frame l4

abbrev pub port_dest : List ℕ → ℕ → Run ℕ
port_dest frame l4 = load16 frame (l4 + 2)

abbrev pub tcp_flag_byte : List ℕ → ℕ → Run ℕ
tcp_flag_byte frame tcp = load8 frame (tcp + 13)
