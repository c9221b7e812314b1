-- ===== src/Advanced/Network/SocketFilter/Flow.antt =====
-- The sampling of example_socket_filter.bpf.c over the packets of one destination.
use monsa_ebpf.Base.{ℕ, ◌+◌, ◌-◌, ◌/◌, ◌<◌, ◌^◌, ◌≡◌, ◌≢◌, some, List, [], length, All, arith}
use monsa_ebpf.Kernel.{Helpers, HashMap, IsHash, RingBuf, IsRing}
use monsa_ebpf.Counting.{State, run, sampled_step}
use monsa_ebpf.Counting.Sampling
use monsa_ebpf.Counting.Sampling.{Room}
use monsa_ebpf.Packet.{SkBuff, fault, done, settle}
use monsa_ebpf.Advanced.Network.SocketFilter.{
  Headers, SocketFilterEvent, headers, headers-ne-fault, fill, msb_socket_filter,
}

module _ (H : HashMap ℕ ℕ) (R : RingBuf SocketFilterEvent) where
  -- No packet makes the program read outside the packet's bytes.
  pub msb_socket_filter_in_bounds :
      (i : Helpers × SkBuff) (s : State H.Map R.Buf) → msb_socket_filter H R i s ≢ fault
  unfolding msb_socket_filter
  msb_socket_filter_in_bounds (env, skb) s = let h = headers-ne-fault skb.frame in ground arith

  -- One run after another, with the state as each leaves it.
  abbrev pub step : Helpers × SkBuff → State H.Map R.Buf → ℕ × State H.Map R.Buf
  step i s = settle (msb_socket_filter H R i s) s

-- The packet is IPv4 with complete headers, and goes to `daddr`.
abbrev pub GoesTo : ℕ → Helpers × SkBuff → Type 0
GoesTo daddr (env, skb) = (h : Headers) × (headers skb.frame ≡ done h) × (h.daddr ≡ daddr)

accepted_step :
    (H : HashMap ℕ ℕ) (R : RingBuf SocketFilterEvent) (daddr : ℕ) (i : Helpers × SkBuff)
    (s : State H.Map R.Buf) (a : GoesTo daddr i)
    → (step H R i s).1 ≡ sampled_step H R daddr (fill i.0 i.1 a.0) (λ _ _. []) s
unfolding msb_socket_filter settle
accepted_step H R daddr (env, skb) s (h, e, d) = rw (e, msb_socket_filter, d)

-- Where all packets are IPv4 with complete headers and go to one destination, whose counter stands
-- at `c` and does not wrap, and the ring has room for the events, `n` packets append one event for
-- each multiple of 100 in the range from `c + 1` to `c + n`.
pub socket_filter_samples :
    (H : HashMap ℕ ℕ) (L : IsHash H) (R : RingBuf SocketFilterEvent) (LR : IsRing R)
    (is : List (Helpers × SkBuff)) (s : State H.Map R.Buf) (daddr c : ℕ)
    → All (GoesTo daddr) is
    → H.lookup s.counts daddr ≡ some c
    → c + length is < 2 ^ 64
    → Room R ((c + length is) / 100 - c / 100) s.events
    → length (R.events (run (step H R) is s).events)
      ≡ length (R.events s.events) + ((c + length is) / 100 - c / 100)
socket_filter_samples H L R LR is s daddr c ok h bound room =
    Sampling.length-events-run H L R LR (step H R) daddr (GoesTo daddr) (λ i a. fill i.0 i.1 a.0)
      (λ i a n e. []) (accepted_step H R daddr) is s c ok h bound room
