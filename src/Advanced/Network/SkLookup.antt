-- ===== src/Advanced/Network/SkLookup.antt =====
-- S2-advanced/examples/network/sk_lookup/example_sk_lookup.bpf.c: one event for each socket lookup.
use monsa_ebpf.Base.{ℕ, List, [], ◌∷◌}
use monsa_ebpf.Base.{low8, low16, bswap16}
use monsa_ebpf.Kernel.{Helpers, HashMap, RingBuf, Line, word, sk_pass}
use monsa_ebpf.Counting.{State, counted_step}

-- `remote_port` is in network byte order, `local_port` in host byte order.
pub record BpfSkLookup : Type 0 where
  pub protocol : ℕ
  pub remote_ip4 : ℕ
  pub remote_port : ℕ
  pub local_ip4 : ℕ
  pub local_port : ℕ

pub record SkLookupEvent : Type 0 where
  pub timestamp_ns : ℕ
  pub saddr : ℕ
  pub daddr : ℕ
  pub sport : ℕ
  pub dport : ℕ
  pub protocol : ℕ
  pub count : ℕ

-- The stores into the reserved record, which still holds the ring's old bytes.
unfoldable pub fill : Helpers → BpfSkLookup → ℕ → SkLookupEvent → SkLookupEvent
fill env ctx new_count evt = record {
  timestamp_ns = env.ktime_ns;
  saddr = ctx.remote_ip4;
  daddr = ctx.local_ip4;
  sport = bswap16 (low16 ctx.remote_port);
  dport = bswap16 (low16 ctx.local_port);
  protocol = low8 ctx.protocol;
  count = new_count;
}

-- What the program prints to the trace log.
unfoldable pub lines : Helpers → BpfSkLookup → ℕ → SkLookupEvent → List Line
lines env ctx new_count evt =
    record {
      format = "sk_lookup: %x:%u -> %x:%u proto=%u\n";
      args =
          word ctx.remote_ip4
          ∷ word evt.sport
          ∷ word ctx.local_ip4
          ∷ word evt.dport
          ∷ word ctx.protocol
          ∷ [];
    }
    ∷ []

unfoldable pub msb_sk_lookup :
    (H : HashMap ℕ ℕ) (R : RingBuf SkLookupEvent)
    → Helpers × BpfSkLookup
    → State H.Map R.Buf
    → ℕ × State H.Map R.Buf
msb_sk_lookup H R (env, ctx) s =
    (sk_pass, counted_step H R (ctx.local_ip4) (fill env ctx) (lines env ctx) s)
