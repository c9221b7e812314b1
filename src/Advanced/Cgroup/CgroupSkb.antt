-- ===== src/Advanced/Cgroup/CgroupSkb.antt =====
-- S2-advanced/examples/cgroup/cgroup_skb/example_cgroup_skb.bpf.c: a sample of the packets of each
-- cgroup.
use monsa_ebpf.Base.{ℕ, ◌+◌, ◌≢◌, not, ◌&&◌}
use monsa_ebpf.Base.{List, [], ◌∷◌, arith, length, ltb, ◌==◌, if◌then◌else◌}
use monsa_ebpf.Base.{bswap16}
use monsa_ebpf.Kernel.{Helpers, HashMap, RingBuf, Line, word}
use monsa_ebpf.Counting.{State, sampled_step}
use monsa_ebpf.Packet.Loads.{if_safe, stop_if_safe, load16_bind, load32_bind, done_safe}
use monsa_ebpf.Packet.{
  SkBuff, Run, fault, stop, done, ◌>>=◌, ◌>>◌, stop_if, sizeof_ethhdr, sizeof_iphdr, eth_p_ip,
  h_proto, ip_saddr, ip_daddr,
}

pub record CgroupSkbEvent : Type 0 where
  pub timestamp_ns : ℕ
  pub saddr : ℕ
  pub daddr : ℕ
  pub len : ℕ
  pub cgroup_id : ℕ
  pub count : ℕ

-- `saddr` and `daddr`: zero unless an IPv4 header fits. A frame with no Ethernet header stops.
unfoldable pub addresses : List ℕ → Run (ℕ × ℕ)
addresses frame = do
  stop_if (ltb (length frame) sizeof_ethhdr)
  proto ← h_proto frame
  let ip = sizeof_ethhdr
  if proto == bswap16 eth_p_ip && not (ltb (length frame) (ip + sizeof_iphdr))
      then (do saddr ← ip_saddr frame ip; daddr ← ip_daddr frame ip; done (saddr, daddr))
      else done (0, 0)

unfoldable pub fill : Helpers → SkBuff → ℕ × ℕ → ℕ → CgroupSkbEvent → CgroupSkbEvent
fill env skb (saddr, daddr) new_count evt = record {
  timestamp_ns = env.ktime_ns;
  saddr = saddr;
  daddr = daddr;
  len = skb.len;
  cgroup_id = env.cgroup_id;
  count = new_count;
}

unfoldable pub lines : Helpers → SkBuff → ℕ → CgroupSkbEvent → List Line
lines env skb new_count evt =
    record {
      format = "cgroup_skb: cgroup=%llu len=%u count=%llu\n";
      args = word env.cgroup_id ∷ word skb.len ∷ word new_count ∷ [];
    }
    ∷ []

unfoldable pub msb_cgroup_skb :
    (H : HashMap ℕ ℕ) (R : RingBuf CgroupSkbEvent)
    → Helpers × SkBuff
    → State H.Map R.Buf
    → Run (ℕ × State H.Map R.Buf)
msb_cgroup_skb H R (env, skb) s = elim (addresses skb.frame) [
  | fault ↦ fault
  | stop ↦ done (1, s)
  | done a ↦ done (1, sampled_step H R env.cgroup_id (fill env skb a) (lines env skb) s)
]

addresses-ne-fault : (frame : List ℕ) → addresses frame ≢ fault
unfolding addresses
addresses-ne-fault frame = stop_if_safe (ltb (length frame) 14) _ λ t.
    load16_bind frame 12 _ (ground arith) λ proto.
      if_safe (proto == bswap16 eth_p_ip && not (ltb (length frame) 34)) _ _
        (λ u.
          load32_bind frame 26 _ (ground arith)
            λ s. load32_bind frame 30 _ (ground arith) λ d. done_safe _)
        (λ _. done_safe _)

-- No packet makes the program read outside the packet's bytes.
pub msb_cgroup_skb_in_bounds :
    (H : HashMap ℕ ℕ) (R : RingBuf CgroupSkbEvent) (i : Helpers × SkBuff) (s : State H.Map R.Buf)
    → msb_cgroup_skb H R i s ≢ fault
unfolding msb_cgroup_skb
msb_cgroup_skb_in_bounds H R (env, skb) s = let h = addresses-ne-fault skb.frame in ground arith
