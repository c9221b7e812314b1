-- ===== src/Loader/Plan/AllBasic.antt =====
-- All loaders of S1-basic by their plans; the one of tc detaches what it may not have attached.
use monsa_ebpf.Base.{◌≡◌, ◌≢◌, refl, [], ◌∷◌, some}
use monsa_ebpf.Loader.{
  Answers, Example, kprobe, kretprobe, raw_tracepoint, tracepoint, fentry_fexit, xdp, tc,
  socket_filter, sk_lookup, cgroup_bpf, cgroup_device, cgroup_skb, cgroup_sock, cgroup_sock_addr,
  cgroup_sockopt, cgroup_sysctl, perf_event, uprobe, uretprobe, lsm,
}
use monsa_ebpf.Loader.Discipline.{held_after}
use monsa_ebpf.Loader.Plan.{Plan, Meets, summary, expected}
use monsa_ebpf.Loader.Basic.{
  main_of, kprobe_main, kretprobe_main, raw_tracepoint_main, tracepoint_main, fentry_fexit_main,
  cgroup_bpf_main, cgroup_device_main, cgroup_skb_main, cgroup_sock_main, cgroup_sock_addr_main,
  cgroup_sockopt_main, cgroup_sysctl_main, lsm_main,
}
use monsa_ebpf.Loader.Plan.Basic
use monsa_ebpf.Loader.Plan.Basic.Interfaces
use monsa_ebpf.Loader.Plan.Cgroups.{cgroup_plan, attach_to_cgroup_and_show-Meets}
use monsa_ebpf.Loader.Plan.Advanced.{attach_and_poll_checked_plan, attach_and_poll_checked-Meets}
use monsa_ebpf.Loader.Plan.Tc.{tc_main_plan, tc_main-expected}

abbrev pub plan_of : Example → Plan
plan_of kprobe = attach_and_poll_checked_plan
plan_of kretprobe = Basic.attach_and_show_plan
plan_of raw_tracepoint = Basic.attach_and_show_plan
plan_of tracepoint = Basic.attach_and_show_plan
plan_of fentry_fexit = attach_and_poll_checked_plan
plan_of xdp = Interfaces.xdp_main_plan
plan_of tc = tc_main_plan
plan_of socket_filter = Interfaces.socket_filter_main_plan
plan_of sk_lookup = Basic.sk_lookup_main_plan
plan_of cgroup_bpf = Basic.attach_and_show_plan
plan_of cgroup_device = cgroup_plan ("msb_cgroup_dev" ∷ [])
plan_of cgroup_skb = cgroup_plan ("msb_cgroup_ingress" ∷ "msb_cgroup_egress" ∷ [])
plan_of cgroup_sock = cgroup_plan ("msb_cgroup_sock" ∷ [])
plan_of cgroup_sock_addr = cgroup_plan (
    "msb_connect4" ∷ "msb_connect6" ∷ "msb_bind4" ∷ "msb_bind6" ∷ "msb_sendmsg4" ∷ "msb_sendmsg6"
    ∷ [])
plan_of cgroup_sockopt = cgroup_plan ("msb_setsockopt" ∷ "msb_getsockopt" ∷ [])
plan_of cgroup_sysctl = cgroup_plan ("msb_cgroup_sysctl" ∷ [])
plan_of perf_event = Basic.perf_event_main_plan
plan_of uprobe = Basic.uprobe_main_plan
plan_of uretprobe = Basic.uretprobe_main_plan
plan_of lsm = attach_and_poll_checked_plan

main_of-Meets : (e : Example) (w : Answers) → e ≢ tc → Meets (plan_of e) w (main_of e w)
unfolding main_of kprobe_main kretprobe_main raw_tracepoint_main tracepoint_main fentry_fexit_main
    cgroup_bpf_main cgroup_device_main cgroup_skb_main cgroup_sock_main cgroup_sock_addr_main
    cgroup_sockopt_main cgroup_sysctl_main lsm_main
main_of-Meets kprobe w h = attach_and_poll_checked-Meets "example_kprobe_bpf" "exec_events" w
main_of-Meets kretprobe w h = Basic.attach_and_show-Meets "example_kretprobe_bpf" w
main_of-Meets raw_tracepoint w h = Basic.attach_and_show-Meets "example_raw_tracepoint_bpf" w
main_of-Meets tracepoint w h = Basic.attach_and_show-Meets "example_tracepoint_bpf" w
main_of-Meets fentry_fexit w h =
    attach_and_poll_checked-Meets "fentry_exec_latency_bpf" "exec_latency_events" w
main_of-Meets xdp w h = Interfaces.xdp_main-Meets w
main_of-Meets tc w h = absurd (h refl)
main_of-Meets socket_filter w h = Interfaces.socket_filter_main-Meets w
main_of-Meets sk_lookup w h = Basic.sk_lookup_main-Meets w
main_of-Meets cgroup_bpf w h = Basic.attach_and_show-Meets "example_cgroup_bpf_bpf" w
main_of-Meets cgroup_device w h =
    attach_to_cgroup_and_show-Meets "example_cgroup_device_bpf" ("msb_cgroup_dev" ∷ []) w
main_of-Meets cgroup_skb w h =
    attach_to_cgroup_and_show-Meets "example_cgroup_skb_bpf"
      ("msb_cgroup_ingress" ∷ "msb_cgroup_egress" ∷ []) w
main_of-Meets cgroup_sock w h =
    attach_to_cgroup_and_show-Meets "example_cgroup_sock_bpf" ("msb_cgroup_sock" ∷ []) w
main_of-Meets cgroup_sock_addr w h =
    attach_to_cgroup_and_show-Meets "example_cgroup_sock_addr_bpf"
      ("msb_connect4" ∷ "msb_connect6" ∷ "msb_bind4" ∷ "msb_bind6" ∷ "msb_sendmsg4" ∷ "msb_sendmsg6"
        ∷ [])
      w
main_of-Meets cgroup_sockopt w h =
    attach_to_cgroup_and_show-Meets "example_cgroup_sockopt_bpf"
      ("msb_setsockopt" ∷ "msb_getsockopt" ∷ []) w
main_of-Meets cgroup_sysctl w h =
    attach_to_cgroup_and_show-Meets "example_cgroup_sysctl_bpf" ("msb_cgroup_sysctl" ∷ []) w
main_of-Meets perf_event w h = Basic.perf_event_main-Meets w
main_of-Meets uprobe w h = Basic.uprobe_main-Meets w
main_of-Meets uretprobe w h = Basic.uretprobe_main-Meets w
main_of-Meets lsm w h = attach_and_poll_checked-Meets "lsm_file_open_bpf" "file_open_events" w

-- Every loader of S1-basic does exactly what its plan asks for: it exits with 1 and never loops
-- where an argument, the signal handlers, a resource, the interface or an attachment is missing;
-- and otherwise it prints or polls, and exits, as its loop says.
pub basic_main_of-expected :
    (e : Example) (w : Answers) → summary (main_of e w) ≡ expected (plan_of e) w
unfolding main_of
basic_main_of-expected kprobe w = (main_of-Meets kprobe w (λ e. cc)).1
basic_main_of-expected kretprobe w = (main_of-Meets kretprobe w (λ e. cc)).1
basic_main_of-expected raw_tracepoint w = (main_of-Meets raw_tracepoint w (λ e. cc)).1
basic_main_of-expected tracepoint w = (main_of-Meets tracepoint w (λ e. cc)).1
basic_main_of-expected fentry_fexit w = (main_of-Meets fentry_fexit w (λ e. cc)).1
basic_main_of-expected xdp w = (main_of-Meets xdp w (λ e. cc)).1
basic_main_of-expected tc w = tc_main-expected w
basic_main_of-expected socket_filter w = (main_of-Meets socket_filter w (λ e. cc)).1
basic_main_of-expected sk_lookup w = (main_of-Meets sk_lookup w (λ e. cc)).1
basic_main_of-expected cgroup_bpf w = (main_of-Meets cgroup_bpf w (λ e. cc)).1
basic_main_of-expected cgroup_device w = (main_of-Meets cgroup_device w (λ e. cc)).1
basic_main_of-expected cgroup_skb w = (main_of-Meets cgroup_skb w (λ e. cc)).1
basic_main_of-expected cgroup_sock w = (main_of-Meets cgroup_sock w (λ e. cc)).1
basic_main_of-expected cgroup_sock_addr w = (main_of-Meets cgroup_sock_addr w (λ e. cc)).1
basic_main_of-expected cgroup_sockopt w = (main_of-Meets cgroup_sockopt w (λ e. cc)).1
basic_main_of-expected cgroup_sysctl w = (main_of-Meets cgroup_sysctl w (λ e. cc)).1
basic_main_of-expected perf_event w = (main_of-Meets perf_event w (λ e. cc)).1
basic_main_of-expected uprobe w = (main_of-Meets uprobe w (λ e. cc)).1
basic_main_of-expected uretprobe w = (main_of-Meets uretprobe w (λ e. cc)).1
basic_main_of-expected lsm w = (main_of-Meets lsm w (λ e. cc)).1

-- Whatever the environment answers, a loader of S1-basic other than that of tc releases everything
-- that it acquired exactly once, an object only behind what stands on it, and reads no map and polls
-- no ring of an object that it does not hold.
pub basic_main_of_clean :
    (e : Example) (w : Answers) → e ≢ tc → held_after (main_of e w).calls ≡ some []
basic_main_of_clean e w h = (main_of-Meets e w h).0
