-- ===== src/Advanced/Network/Agreement.antt =====
-- The three programs that parse packets, example_socket_filter.bpf.c, example_tc_classifier.bpf.c
-- and xdp_pass.bpf.c, read the same headers.
use monsa_ebpf.Base.{ℕ, ◌≡◌, refl, List}
use monsa_ebpf.Packet.{Run, fault, stop, done, ◌>>=◌, ◌>>◌, map_run}
use monsa_ebpf.Advanced.Network.SocketFilter
use monsa_ebpf.Advanced.Network.Tc
use monsa_ebpf.Advanced.Network.SocketFilter.{Headers, headers}
use monsa_ebpf.Advanced.Network.Tc.{FlowKey, flow_key}

same_ports :
    (frame : List ℕ) (ip protocol : ℕ)
    → SocketFilter.ports frame ip protocol ≡ Tc.ports frame ip protocol
unfolding SocketFilter.ports Tc.ports
same_ports frame ip protocol = refl

-- The fields of a flow key as the socket filter keeps them.
unfoldable pub headers_of : FlowKey → Headers
headers_of key = record {
  saddr = key.saddr;
  daddr = key.daddr;
  protocol = key.protocol;
  sport = key.sport;
  dport = key.dport;
}

module _ {A B C : Type 0} (f : B → C) where
  bind_agree :
      (m : Run A) (g : A → Run C) (h : A → Run B)
      → ((a : A) → g a ≡ map_run f (h a))
      → (m >>= g) ≡ map_run f (m >>= h)
  unfolding ◌>>=◌ map_run
  bind_agree fault g h e = refl
  bind_agree stop g h e = refl
  bind_agree (done a) g h e = e a

module _ {B C : Type 0} (f : B → C) where
  then_agree :
      (m : Run (Unit {0})) (g : Run C) (h : Run B) → g ≡ map_run f h → (m >> g) ≡ map_run f (m >> h)
  unfolding ◌>>◌
  then_agree m g h e = bind_agree f m (λ _. g) (λ _. h) (λ _. e)

-- On every frame the socket filter and the classifier agree: one accepts it if the other does, and
-- then they read the same addresses, protocol and ports.
pub headers_of-flow_key : (frame : List ℕ) → headers frame ≡ map_run headers_of (flow_key frame)
unfolding headers flow_key SocketFilter.ports Tc.ports map_run headers_of
headers_of-flow_key frame = then_agree headers_of _ _ _ (
    bind_agree headers_of _ _ _ λ proto. then_agree headers_of _ _ _ (
      then_agree headers_of _ _ _ (
        bind_agree headers_of _ _ _ λ saddr.
          bind_agree headers_of _ _ _ λ daddr.
            bind_agree headers_of _ _ _ λ protocol. bind_agree headers_of _ _ _ λ p. refl)))
