-- ===== src/Advanced/Network/Tc/Bounds.antt =====
-- The reads of example_tc_classifier.bpf.c stay within the packet.
use monsa_ebpf.Base.{ℕ, ◌+◌, ◌*◌, ◌≤◌, ◌≢◌, List, arith, length, ltb, ◌==◌}
use monsa_ebpf.Kernel.{Helpers, HashMap, RingBuf}
use monsa_ebpf.Counting.{State}
use monsa_ebpf.Packet.{SkBuff, fault}
use monsa_ebpf.Packet.Loads.{
  if_safe, stop_if_safe, load8_bind, load16_bind, load32_bind, bind_safe, done_safe, ihl_bind,
  ports_bind,
}
use monsa_ebpf.Advanced.Network.Tc.{TcEvent, FlowKey, FlowStats, ports, flow_key, msb_tc_classifier}

ports-ne-fault :
    (frame : List ℕ) (ip protocol : ℕ) → ip + 20 ≤ length frame → ports frame ip protocol ≢ fault
unfolding ports
ports-ne-fault frame ip protocol h =
    if_safe (protocol == 6) _ _
      (λ _.
        ihl_bind frame ip _ (omega arith)
          λ words. ports_bind frame (ip + words * 4) 20 _ (omega arith) λ s d _. done_safe _)
      (λ _.
        if_safe (protocol == 17) _ _
          (λ _.
            ihl_bind frame ip _ (omega arith)
              λ words. ports_bind frame (ip + words * 4) 8 _ (omega arith) λ s d _. done_safe _)
          (λ _. done_safe _))

pub flow_key-ne-fault : (frame : List ℕ) → flow_key frame ≢ fault
unfolding flow_key
flow_key-ne-fault frame = stop_if_safe (ltb (length frame) 14) _ λ t.
    load16_bind frame 12 _ (ground arith) λ proto. stop_if_safe _ _ λ _.
      stop_if_safe (ltb (length frame) 34) _ λ u. load32_bind frame 26 _ (ground arith) λ saddr.
        load32_bind frame 30 _ (ground arith) λ daddr.
          load8_bind frame 23 _ (ground arith) λ protocol.
            bind_safe _ _ (ports-ne-fault frame 14 protocol (ground arith)) λ p. done_safe _

-- No packet makes the classifier read outside the packet's bytes.
pub msb_tc_classifier_in_bounds :
    (H : HashMap FlowKey FlowStats) (R : RingBuf TcEvent) (i : Helpers × SkBuff)
    (s : State H.Map R.Buf)
    → msb_tc_classifier H R i s ≢ fault
unfolding msb_tc_classifier
msb_tc_classifier_in_bounds H R (env, skb) s = let h = flow_key-ne-fault skb.frame in ground arith
