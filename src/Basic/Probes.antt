-- ===== src/Basic/Probes.antt =====
-- The programs of S1-basic/examples that keep hash maps: kprobe, kretprobe, uprobe, sk_lookup,
-- fentry_fexit, uretprobe, and lsm, which only writes to its ring.
pub mod Latency
use monsa_ebpf.Base.{ℕ, ℤ, pos, Option, none, some, List, add64, sub64, high32, low16, signed64}
use monsa_ebpf.Kernel.{Helpers, PtRegs, HashMap, RingBuf, sk_pass}
use monsa_ebpf.Counting.{hit}

-- A counter map or a start map, with the ring.
pub record Store (M B : Type 0) : Type 0 where
  pub entries : M
  pub events : B

pub record ExecEvent : Type 0 where
  pub pid : ℕ
  pub comm : List ℕ
  pub count : ℕ

-- S1-basic/examples/tracing/kprobe
unfoldable pub msb_esecve :
    (H : HashMap ℕ ℕ) (R : RingBuf ExecEvent) → Helpers → Store H.Map R.Buf → ℕ × Store H.Map R.Buf
msb_esecve H R env s =
    let pid = high32 env.pid_tgid in
    let (counts, new_count) = hit H s.entries pid in
    (
      0,
      record {
        entries = counts;
        events = R.output s.events (record { pid = pid; comm = env.comm; count = new_count });
      },
    )

-- S1-basic/examples/tracing/kretprobe
unfoldable pub msb_getpid_ret : (H : HashMap ℕ ℤ) → Helpers × PtRegs → H.Map → ℕ × H.Map
msb_getpid_ret H (env, ctx) m = (0, H.update m (high32 env.pid_tgid) (signed64 ctx.rc))

-- S1-basic/examples/userspace/uprobe
unfoldable pub msb_uprobe_target : (H : HashMap ℕ ℕ) → Helpers → H.Map → ℕ × H.Map
msb_uprobe_target H env m = (0, (hit H m (high32 env.pid_tgid)).0)

-- S1-basic/examples/network/sk_lookup, by `remote_port`.
unfoldable pub msb_sk_lookup : (H : HashMap ℕ ℕ) → ℕ → H.Map → ℕ × H.Map
msb_sk_lookup H remote_port m = (sk_pass, (hit H m (low16 remote_port)).0)

-- S1-basic/examples/security/lsm
pub record FileOpenEvent : Type 0 where
  pub pid : ℕ
  pub comm : List ℕ
  pub mask : ℤ

unfoldable pub msb_file_open : (R : RingBuf FileOpenEvent) → Helpers → ℤ → R.Buf → ℤ × R.Buf
msb_file_open R env mask b =
    (pos 0, R.output b (record { pid = high32 env.pid_tgid; comm = env.comm; mask = mask }))

-- S1-basic/examples/tracing/fentry_fexit
pub record ExecLatencyEvent : Type 0 where
  pub pid : ℕ
  pub comm : List ℕ
  pub duration_ns : ℕ

module _ (H : HashMap ℕ ℕ) (R : RingBuf ExecLatencyEvent) where
  unfoldable pub fentry_execve : Helpers → Store H.Map R.Buf → ℕ × Store H.Map R.Buf
  fentry_execve env s =
      (0, record s { entries = H.update s.entries (high32 env.pid_tgid) env.ktime_ns })

  unfoldable pub fexit_execve : Helpers → Store H.Map R.Buf → ℕ × Store H.Map R.Buf
  fexit_execve env s =
      let pid = high32 env.pid_tgid in
      elim (H.lookup s.entries pid) [
        | none ↦ (0, s)
        | some start ↦ (
          0,
          record {
            entries = H.delete s.entries pid;
            events =
                R.output s.events
                  (record { pid = pid; comm = env.comm; duration_ns = sub64 env.ktime_ns start });
          },
        )
      ]

-- S1-basic/examples/userspace/uretprobe
pub record UretprobeStat : Type 0 where
  pub calls : ℕ
  pub total_ns : ℕ
  pub last_rc : ℤ

pub record StatStore (M S : Type 0) : Type 0 where
  pub starts : M
  pub stats : S

-- `stat`: the current value, or zeros.
unfoldable pub current_stat : (S : HashMap ℕ UretprobeStat) → S.Map → ℕ → UretprobeStat
current_stat S m pid = elim (S.lookup m pid) [
  | none ↦ record { calls = 0; total_ns = 0; last_rc = pos 0 }
  | some cur ↦ cur
]

module _ (H : HashMap ℕ ℕ) (S : HashMap ℕ UretprobeStat) where
  unfoldable pub msb_uretprobe_entry : Helpers → StatStore H.Map S.Map → ℕ × StatStore H.Map S.Map
  msb_uretprobe_entry env s =
      (0, record s { starts = H.update s.starts (high32 env.pid_tgid) env.ktime_ns })

  unfoldable pub msb_uretprobe_exit :
      Helpers × PtRegs → StatStore H.Map S.Map → ℕ × StatStore H.Map S.Map
  unfolding current_stat
  msb_uretprobe_exit (env, ctx) s =
      let pid = high32 env.pid_tgid in
      elim (H.lookup s.starts pid) [
        | none ↦ (0, s)
        | some start ↦
            let stat = current_stat S s.stats pid in
            (
              0,
              record {
                starts = H.delete s.starts pid;
                stats = S.update s.stats pid (record {
                  calls = add64 stat.calls 1;
                  total_ns = add64 stat.total_ns (sub64 env.ktime_ns start);
                  last_rc = signed64 ctx.rc;
                });
              },
            )
      ]
