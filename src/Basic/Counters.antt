-- ===== src/Basic/Counters.antt =====
-- The programs of S1-basic/examples that bump one counter in each run: cgroup_skb, cgroup_sock,
-- socket_filter, tc, xdp, raw_tracepoint, tracepoint and perf_event, the last also in
-- S2-advanced/examples/perf/perf_event. Each takes the CPU it runs on.
use monsa_ebpf.Base.{ℕ}
use monsa_ebpf.Kernel.{tc_act_ok, xdp_pass_action}
use monsa_ebpf.Basic.PerCpu.{PerCpuArray, bump}

module _ (A : PerCpuArray ℕ) where
  unfoldable pub msb_cgroup_ingress : ℕ → A.Map → ℕ × A.Map
  msb_cgroup_ingress cpu m = (1, bump A cpu 0 m)

  unfoldable pub msb_cgroup_egress : ℕ → A.Map → ℕ × A.Map
  msb_cgroup_egress cpu m = (1, bump A cpu 0 m)

  unfoldable pub msb_cgroup_sock : ℕ → A.Map → ℕ × A.Map
  msb_cgroup_sock cpu m = (1, bump A cpu 0 m)

  unfoldable pub msb_socket_filter : ℕ → A.Map → ℕ × A.Map
  msb_socket_filter cpu m = (0, bump A cpu 0 m)

  unfoldable pub msb_tc_classifier : ℕ → A.Map → ℕ × A.Map
  msb_tc_classifier cpu m = (tc_act_ok, bump A cpu 0 m)

  unfoldable pub xdp_pass : ℕ → A.Map → ℕ × A.Map
  xdp_pass cpu m = (xdp_pass_action, bump A cpu 0 m)

  unfoldable pub msb_perf_sample : ℕ → A.Map → ℕ × A.Map
  msb_perf_sample cpu m = (0, bump A cpu 0 m)

  unfoldable pub msb_sched_fork : ℕ → A.Map → ℕ × A.Map
  msb_sched_fork cpu m = (0, bump A cpu 0 m)

  unfoldable pub msb_execve_enter : ℕ → A.Map → ℕ × A.Map
  msb_execve_enter cpu m = (0, bump A cpu 0 m)
