-- ===== src/Advanced/Network/Tc/Flow.antt =====
-- The flow table of example_tc_classifier.bpf.c over any sequence of packets.
use mathlib.Core.Logic.{ite, if_pos, if_neg}
use monsa_ebpf.Base.{
  ℕ, ◌+◌, ◌<◌, ◌^◌, ◌≡◌, ◌≢◌, refl, ap, ◌∙◌, none, some, List, [], ◌∷◌, Option-cases,
}
use monsa_ebpf.Base.{
  arith, add64, add64-lt, add64-add64, add64_eq, ℕ_discrete, Bool-cases, inl, inr,
}
use monsa_ebpf.Kernel.{Helpers, HashMap, IsHash, RingBuf}
use monsa_ebpf.Counting.{State, run}
use monsa_ebpf.Counting.Emit.{emit-counts}
use monsa_ebpf.Packet.{SkBuff, Run, fault, stop, done, settle}
use monsa_ebpf.Advanced.Network.Tc.{
  TcEvent, FlowKey, FlowStats, flow_key, track, skipped, flow_step, msb_tc_classifier,
}

pub FlowKey-discrete : Discrete FlowKey
FlowKey-discrete = hlevel ℕ_discrete

-- The value if the packet is of the flow, else zero.
unfoldable pub share : FlowKey → Run FlowKey → ℕ → ℕ
share key (done k) v = ite (FlowKey-discrete k key) v 0
share key fault v = 0
share key stop v = 0

-- The packets of a flow, and the sum of their lengths.
unfoldable pub packets_of : FlowKey → List (Helpers × SkBuff) → ℕ
packets_of key [] = 0
packets_of key ((env, skb) ∷ is) = share key (flow_key skb.frame) 1 + packets_of key is

unfoldable pub bytes_of : FlowKey → List (Helpers × SkBuff) → ℕ
bytes_of key [] = 0
bytes_of key ((env, skb) ∷ is) = share key (flow_key skb.frame) skb.len + bytes_of key is

module _ (H : HashMap FlowKey FlowStats) (R : RingBuf TcEvent) where
  abbrev pub step : Helpers × SkBuff → State H.Map R.Buf → ℕ × State H.Map R.Buf
  step i s = settle (msb_tc_classifier H R i s) s

  counts-flow_step :
      (env : Helpers) (skb : SkBuff) (key : FlowKey) (s : State H.Map R.Buf)
      → (flow_step H R env skb key s).counts ≡ (track H key skb.len s.counts).0
  unfolding flow_step
  counts-flow_step env skb key s = elim (Bool-cases (skipped (track H key skb.len s.counts).1)) [
    | inl e ↦ rw e
    | inr e ↦ rw e (emit-counts R _ _ _)
  ]

module _ (H : HashMap FlowKey FlowStats) (L : IsHash H) (m : H.Map) (key : FlowKey) (len : ℕ) where
  track_self :
      (st : FlowStats)
      → H.lookup m key ≡ some st
      → H.lookup (track H key len m).0 key
        ≡ some (record { packets = add64 st.packets 1; bytes = add64 st.bytes len })
  unfolding track
  track_self st h = ground (
    arith,
    L.lookup-store_self m key (record { packets = add64 st.packets 1; bytes = add64 st.bytes len })
        (λ (e : H.lookup m key ≡ none). cc),
  )

  track_other :
      (other : FlowKey) → key ≢ other → H.lookup (track H key len m).0 other ≡ H.lookup m other
  unfolding track
  track_other other h = elim (Option-cases (H.lookup m key)) [
    | inl e ↦
        ground (arith, L.lookup-update_other m key other (record { packets = 1; bytes = len }) h)
    | inr (st, e) ↦ ground (
      arith,
      L.lookup-store_other m key other
          (record { packets = add64 st.packets 1; bytes = add64 st.bytes len }) h,
    )
  ]

-- A counter pair with `n` packets and `k` bytes more.
abbrev pub raised : FlowStats → ℕ → ℕ → FlowStats
raised st n k = record { packets = add64 st.packets n; bytes = add64 st.bytes k }

raised_zero : (st : FlowStats) → st.packets < 2 ^ 64 → st.bytes < 2 ^ 64 → st ≡ raised st 0 0
raised_zero st p q = ground (arith, add64_eq st.packets 0, add64_eq st.bytes 0)

raised-raised :
    (st : FlowStats) (n k n' k' : ℕ) → raised (raised st n k) n' k' ≡ raised st (n + n') (k + k')
raised-raised st n k n' k' = ground (arith, add64-add64 st.packets n n', add64-add64 st.bytes k k')

share_fault : (key : FlowKey) (v : ℕ) → share key fault v ≡ 0
unfolding share
share_fault key v = refl

share_stop : (key : FlowKey) (v : ℕ) → share key stop v ≡ 0
unfolding share
share_stop key v = refl

share_same : (key k : FlowKey) → k ≡ key → (v : ℕ) → share key (done k) v ≡ v
unfolding share
share_same key k same v = rw (if_pos _ same)

share_other : (key k : FlowKey) → k ≢ key → (v : ℕ) → share key (done k) v ≡ 0
unfolding share
share_other key k other v = rw (if_neg _ other)

module _ (H : HashMap FlowKey FlowStats) (L : IsHash H) (R : RingBuf TcEvent) (key : FlowKey) where
  lookup-step :
      (env : Helpers) (skb : SkBuff) (s : State H.Map R.Buf) (st : FlowStats) (r : Run FlowKey)
      → flow_key skb.frame ≡ r
      → st.packets < 2 ^ 64
      → st.bytes < 2 ^ 64
      → H.lookup s.counts key ≡ some st
      → H.lookup (step H R (env, skb) s).1.counts key
        ≡ some (raised st (share key r 1) (share key r skb.len))
  unfolding msb_tc_classifier settle
  lookup-step env skb s st fault e p q h =
      rw (e, msb_tc_classifier, share_fault, share_fault) (h ∙ ap some (raised_zero st p q))
  lookup-step env skb s st stop e p q h =
      rw (e, msb_tc_classifier, share_stop, share_stop) (h ∙ ap some (raised_zero st p q))
  lookup-step env skb s st (done k) e p q h = elim (FlowKey-discrete k key) [
    | yes same ↦
        rw
          (
            e,
            msb_tc_classifier,
            counts-flow_step H R env skb k s,
            share_same key k same 1,
            share_same key k same skb.len,
          )
          (rw same (track_self H L s.counts key skb.len st h))
    | no other ↦
        rw
          (
            e,
            msb_tc_classifier,
            counts-flow_step H R env skb k s,
            share_other key k other 1,
            share_other key k other skb.len,
          )
          (track_other H L s.counts k skb.len key other ∙ h ∙ ap some (raised_zero st p q))
  ]

  -- A flow that is in the table with 64-bit counters ends at those plus the number and the lengths
  -- of its own packets, whatever other packets come between them and whatever the ring holds,
  -- modulo 2 ^ 64.
  pub lookup-run-msb_tc_classifier :
      (is : List (Helpers × SkBuff)) (s : State H.Map R.Buf) (st : FlowStats)
      → st.packets < 2 ^ 64
      → st.bytes < 2 ^ 64
      → H.lookup s.counts key ≡ some st
      → H.lookup (run (step H R) is s).counts key
        ≡ some (record {
          packets = add64 st.packets (packets_of key is);
          bytes = add64 st.bytes (bytes_of key is);
        })
  unfolding run packets_of bytes_of
  lookup-run-msb_tc_classifier [] s st p q h = h ∙ ap some (raised_zero st p q)
  lookup-run-msb_tc_classifier ((env, skb) ∷ is) s st p q h =
      let r = flow_key skb.frame in
      lookup-run-msb_tc_classifier is _ (raised st (share key r 1) (share key r skb.len))
        (add64-lt _ _) (add64-lt _ _) (lookup-step env skb s st r refl p q h)
      ∙ ap some (raised-raised st _ _ _ _)
