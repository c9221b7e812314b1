-- ===== src/Advanced/Network/Xdp/Verdict.antt =====
-- What the handler of xdp_pass.bpf.c returns, and what it leaves in its maps.
use mathlib.Core.Logic.{ite, if_pos, if_neg}
use monsa_ebpf.Base.{
  inl, inr, Option-cases, ℕ_discrete, ℕ, ◌+◌, ◌^◌, ◌<◌, ◌≡◌, ◌≢◌, refl, ap, ◌∙◌, arith, none, some,
  List, [], ◌∷◌, length, low32, add64, add64-lt, add64-add64, add64_eq,
}
use monsa_ebpf.Kernel.PerCpu.{PerCpuArray, IsPerCpuArray}
use monsa_ebpf.Kernel.{Helpers, HashMap, IsLruHash, RingBuf, xdp_pass_action}
use monsa_ebpf.Counting.{run}
use monsa_ebpf.Counting.Map.{lru_hit}
use monsa_ebpf.Packet.{Run, fault, stop, done, settle}
use monsa_ebpf.Advanced.Network.Xdp.{
  XdpEvent, XdpStats, XdpMd, XdpState, fresh_event, parse_packet, count_packet, record_event,
  xdp_pass,
}
use monsa_ebpf.Advanced.Network.Xdp.Bounds.{parse_packet-ne-fault}

-- The byte total of a sequence of packets, each length as a 32-bit word.
unfoldable pub bytes_of : List (Helpers × XdpMd) → ℕ
bytes_of [] = 0
bytes_of ((env, ctx) ∷ is) = low32 (length ctx.frame) + bytes_of is

-- The packets that came on a CPU.
unfoldable pub on_cpu : ℕ → List (Helpers × XdpMd) → List (Helpers × XdpMd)
on_cpu cpu [] = []
on_cpu cpu ((env, ctx) ∷ is) =
    ite (ℕ_discrete env.cpu cpu) ((env, ctx) ∷ on_cpu cpu is) (on_cpu cpu is)

-- The statistics after `n` packets of `k` bytes in total.
abbrev pub counted : XdpStats → ℕ → ℕ → XdpStats
counted st n k = record st {
  packets = add64 st.packets n;
  bytes = add64 st.bytes k;
  passed = add64 st.passed n;
}

pub record IsWord (st : XdpStats) : Type 0 where
  pub packets_word : st.packets < 2 ^ 64
  pub bytes_word : st.bytes < 2 ^ 64
  pub passed_word : st.passed < 2 ^ 64

counted_zero : (st : XdpStats) → IsWord st → st ≡ counted st 0 0
counted_zero st w = ground (arith, add64_eq st.packets 0, add64_eq st.bytes 0, add64_eq st.passed 0)

counted-counted :
    (st : XdpStats) (n k n' k' : ℕ) → counted (counted st n k) n' k' ≡ counted st (n + n') (k + k')
counted-counted st n k n' k' =
    ground
      (arith, add64-add64 st.packets n n', add64-add64 st.bytes k k', add64-add64 st.passed n n')

module _ (A : PerCpuArray XdpStats) (C : HashMap ℕ ℕ) (R : RingBuf XdpEvent) where
  abbrev pub step : Helpers × XdpMd → XdpState A.Map C.Map R.Buf → ℕ × XdpState A.Map C.Map R.Buf
  step i s = settle (xdp_pass A C R i s) s

  -- Every packet, however malformed, is passed and counted: the run ends without a fault, returns
  -- XDP_PASS, and leaves the statistics that counting the packet's length on the running CPU makes.
  pub xdp_pass_passes :
      (i : Helpers × XdpMd) (s : XdpState A.Map C.Map R.Buf)
      → (r : ℕ × XdpState A.Map C.Map R.Buf) × (xdp_pass A C R i s ≡ done r)
        × (r.0 ≡ xdp_pass_action)
        × (r.1.statistics ≡ count_packet A i.0.cpu (low32 (length i.1.frame)) s.statistics)
  unfolding xdp_pass record_event
  xdp_pass_passes (env, ctx) s = go (parse_packet ctx.frame (fresh_event env ctx)) refl
    where
      counted_state : XdpState A.Map C.Map R.Buf
      counted_state = record s {
        statistics = count_packet A env.cpu (low32 (length ctx.frame)) s.statistics;
      }

      go :
          (p : Run XdpEvent)
          → parse_packet ctx.frame (fresh_event env ctx) ≡ p
          → (r : ℕ × XdpState A.Map C.Map R.Buf) × (xdp_pass A C R (env, ctx) s ≡ done r)
            × (r.0 ≡ xdp_pass_action)
            × (r.1.statistics ≡ count_packet A env.cpu (low32 (length ctx.frame)) s.statistics)
      go fault e = absurd (parse_packet-ne-fault ctx.frame (fresh_event env ctx) e)
      go stop e = ((xdp_pass_action, counted_state), rw (e, xdp_pass), refl, refl)
      go (done evt) e =
          ((xdp_pass_action, record_event A C R evt counted_state), rw (e, xdp_pass), refl, refl)

  statistics-step :
      (i : Helpers × XdpMd) (s : XdpState A.Map C.Map R.Buf)
      → (step i s).1.statistics ≡ count_packet A i.0.cpu (low32 (length i.1.frame)) s.statistics
  unfolding settle
  statistics-step i s = let (r, e, _, t) = xdp_pass_passes i s in rw (e, settle) t

module _ (A : PerCpuArray XdpStats) {cpus : ℕ} (L : IsPerCpuArray A cpus 1) where
  lookup-count_packet :
      (m : A.Map) (st : XdpStats) (cpu len : ℕ)
      → A.lookup m cpu 0 ≡ some st
      → A.lookup (count_packet A cpu len m) cpu 0 ≡ some (counted st 1 len)
  unfolding count_packet
  lookup-count_packet m st cpu len h =
      rw (h, count_packet)
        (L.lookup-store_self m cpu 0 (counted st 1 len) (λ (e : A.lookup m cpu 0 ≡ none). cc))

  lookup-count_packet_other :
      (m : A.Map) (cpu i len : ℕ)
      → i ≢ cpu
      → A.lookup (count_packet A i len m) cpu 0 ≡ A.lookup m cpu 0
  unfolding count_packet
  lookup-count_packet_other m cpu i len h = elim (Option-cases (A.lookup m i 0)) [
    | inl e ↦ rw (e, count_packet) refl
    | inr (st, e) ↦
        rw (e, count_packet) (L.lookup-store_other m i 0 (counted st 1 len) cpu 0 (inl h))
  ]

  -- Where the statistics of a CPU are 64-bit words, any sequence of packets, on any CPUs, leaves them
  -- with each packet that came on this CPU counted and passed and its length added, modulo 2 ^ 64,
  -- and `dropped` as it was.
  pub lookup-run-xdp_pass :
      (C : HashMap ℕ ℕ) (R : RingBuf XdpEvent) (is : List (Helpers × XdpMd))
      (s : XdpState A.Map C.Map R.Buf) (cpu : ℕ) (st : XdpStats)
      → IsWord st
      → A.lookup s.statistics cpu 0 ≡ some st
      → A.lookup (run (step A C R) is s).statistics cpu 0
        ≡ some (record st {
          packets = add64 st.packets (length (on_cpu cpu is));
          bytes = add64 st.bytes (bytes_of (on_cpu cpu is));
          passed = add64 st.passed (length (on_cpu cpu is));
        })
  unfolding run bytes_of on_cpu
  lookup-run-xdp_pass C R [] s cpu st w h = h ∙ ap some (counted_zero st w)
  lookup-run-xdp_pass C R ((env, ctx) ∷ is) s cpu st w h =
      let len = low32 (length ctx.frame) in
      let step_eq = statistics-step A C R (env, ctx) s in
      elim (ℕ_discrete env.cpu cpu) [
        | no other ↦ rw (if_neg _ other) (
            lookup-run-xdp_pass C R is _ cpu st w
              (rw step_eq (lookup-count_packet_other s.statistics cpu env.cpu len other ∙ h)))
        | yes same ↦
            let counts : A.lookup (step A C R (env, ctx) s).1.statistics cpu 0
                ≡ some (counted st 1 len) =
              rw (step_eq, same) (lookup-count_packet s.statistics st cpu len h) in
            let mine = on_cpu cpu is in
            rw (if_pos _ same, bytes_of)
              (lookup-run-xdp_pass C R is _ cpu (counted st 1 len)
                  (record {
                    packets_word = add64-lt _ _;
                    bytes_word = add64-lt _ _;
                    passed_word = add64-lt _ _;
                  })
                  counts
                ∙ ap some (
                    counted-counted st 1 len (length mine) (bytes_of mine)
                    ∙ ap (λ n. counted st n (len + bytes_of mine)) (omega arith)))
      ]

-- A packet whose parse succeeds with a source address that is not zero adds one to the counter of
-- that address, or starts it at one; the LRU map has room for it always.
pub xdp_pass_source :
    (A : PerCpuArray XdpStats) (C : HashMap ℕ ℕ) (L : IsLruHash C) (R : RingBuf XdpEvent)
    (env : Helpers) (ctx : XdpMd) (s : XdpState A.Map C.Map R.Buf) (evt : XdpEvent)
    → parse_packet ctx.frame (fresh_event env ctx) ≡ done evt
    → evt.src_ip ≢ 0
    → C.lookup (step A C R (env, ctx) s).1.src_ip_counts evt.src_ip
      ≡ some (elim (C.lookup s.src_ip_counts evt.src_ip) [ none ↦ 1 | some c ↦ add64 c 1 ])
unfolding xdp_pass record_event settle
xdp_pass_source A C L R env ctx s evt e z =
    rw (e, xdp_pass) (ground (arith, lru_hit C L s.src_ip_counts evt.src_ip))
