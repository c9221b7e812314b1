-- ===== src/Loader/Plan/AllAdvanced.antt =====
-- All loaders of S2-advanced by their plans.
use monsa_ebpf.Base.{◌≡◌, [], some}
use monsa_ebpf.Loader.{
  Answers, Example, kprobe, kretprobe, raw_tracepoint, tracepoint, fentry_fexit, xdp, tc,
  socket_filter, sk_lookup, cgroup_bpf, cgroup_device, cgroup_skb, cgroup_sock, cgroup_sock_addr,
  cgroup_sockopt, cgroup_sysctl, perf_event, uprobe, uretprobe, lsm,
}
use monsa_ebpf.Loader.Discipline.{held_after}
use monsa_ebpf.Loader.Plan.{Plan, Meets, summary, expected}
use monsa_ebpf.Loader.Advanced.{
  main_of, kprobe_main, kretprobe_main, raw_tracepoint_main, tracepoint_main, fentry_fexit_main,
  socket_filter_main, sk_lookup_main, cgroup_bpf_main, cgroup_device_main, cgroup_skb_main,
  cgroup_sock_main, cgroup_sock_addr_main, cgroup_sockopt_main, cgroup_sysctl_main, lsm_main,
}
use monsa_ebpf.Loader.Plan.Advanced
use monsa_ebpf.Loader.Plan.Advanced.Links

abbrev pub plan_of : Example → Plan
plan_of kprobe = Advanced.attach_and_poll_checked_plan
plan_of kretprobe = Advanced.attach_and_poll_checked_plan
plan_of raw_tracepoint = Advanced.attach_and_poll_plan
plan_of tracepoint = Advanced.attach_and_poll_plan
plan_of fentry_fexit = Advanced.attach_and_poll_plan
plan_of xdp = Advanced.xdp_main_plan
plan_of tc = Advanced.tc_main_plan
plan_of socket_filter = Advanced.attach_and_poll_plan
plan_of sk_lookup = Advanced.attach_and_poll_plan
plan_of cgroup_bpf = Advanced.attach_to_cgroup_and_poll_plan
plan_of cgroup_device = Advanced.attach_to_cgroup_and_poll_plan
plan_of cgroup_skb = Advanced.attach_to_cgroup_and_poll_plan
plan_of cgroup_sock = Advanced.attach_to_cgroup_and_poll_plan
plan_of cgroup_sock_addr = Advanced.attach_to_cgroup_and_poll_plan
plan_of cgroup_sockopt = Advanced.attach_to_cgroup_and_poll_plan
plan_of cgroup_sysctl = Advanced.attach_to_cgroup_and_poll_plan
plan_of perf_event = Links.perf_event_main_plan
plan_of uprobe = Links.uprobe_main_plan
plan_of uretprobe = Links.uretprobe_main_plan
plan_of lsm = Advanced.attach_and_poll_plan

main_of-Meets : (e : Example) (w : Answers) → Meets (plan_of e) w (main_of e w)
unfolding main_of kprobe_main kretprobe_main raw_tracepoint_main tracepoint_main fentry_fexit_main
    socket_filter_main sk_lookup_main cgroup_bpf_main cgroup_device_main cgroup_skb_main
    cgroup_sock_main cgroup_sock_addr_main cgroup_sockopt_main cgroup_sysctl_main lsm_main
main_of-Meets kprobe w =
    Advanced.attach_and_poll_checked-Meets "example_kprobe_bpf" "kprobe_events" w
main_of-Meets kretprobe w =
    Advanced.attach_and_poll_checked-Meets "example_kretprobe_bpf" "kretprobe_events" w
main_of-Meets raw_tracepoint w =
    Advanced.attach_and_poll-Meets "example_raw_tracepoint_bpf" "raw_tp_events" w
main_of-Meets tracepoint w = Advanced.attach_and_poll-Meets "example_tracepoint_bpf" "tp_events" w
main_of-Meets fentry_fexit w =
    Advanced.attach_and_poll-Meets "example_fentry_fexit_bpf" "fentry_fexit_events" w
main_of-Meets xdp w = Advanced.xdp_main-Meets w
main_of-Meets tc w = Advanced.tc_main-Meets w
main_of-Meets socket_filter w =
    Advanced.attach_and_poll-Meets "example_socket_filter_bpf" "sf_events" w
main_of-Meets sk_lookup w =
    Advanced.attach_and_poll-Meets "example_sk_lookup_bpf" "sk_lookup_events" w
main_of-Meets cgroup_bpf w =
    Advanced.attach_to_cgroup_and_poll-Meets "example_cgroup_bpf_bpf" "msb_cgroup_bpf"
      "cgroup_bpf_events" w
main_of-Meets cgroup_device w =
    Advanced.attach_to_cgroup_and_poll-Meets "example_cgroup_device_bpf" "msb_cgroup_device"
      "cgroup_device_events" w
main_of-Meets cgroup_skb w =
    Advanced.attach_to_cgroup_and_poll-Meets "example_cgroup_skb_bpf" "msb_cgroup_skb"
      "cgroup_skb_events" w
main_of-Meets cgroup_sock w =
    Advanced.attach_to_cgroup_and_poll-Meets "example_cgroup_sock_bpf" "msb_cgroup_sock"
      "cgroup_sock_events" w
main_of-Meets cgroup_sock_addr w =
    Advanced.attach_to_cgroup_and_poll-Meets "example_cgroup_sock_addr_bpf" "msb_cgroup_sock_addr"
      "cgroup_sock_addr_events" w
main_of-Meets cgroup_sockopt w =
    Advanced.attach_to_cgroup_and_poll-Meets "example_cgroup_sockopt_bpf" "msb_cgroup_sockopt"
      "cgroup_sockopt_events" w
main_of-Meets cgroup_sysctl w =
    Advanced.attach_to_cgroup_and_poll-Meets "example_cgroup_sysctl_bpf" "msb_cgroup_sysctl"
      "cgroup_sysctl_events" w
main_of-Meets perf_event w = Links.perf_event_main-Meets w
main_of-Meets uprobe w = Links.uprobe_main-Meets w
main_of-Meets uretprobe w = Links.uretprobe_main-Meets w
main_of-Meets lsm w = Advanced.attach_and_poll-Meets "lsm_file_open_bpf" "lsm_events" w

-- Every loader of S2-advanced does exactly what its plan asks for: it exits with 1 and never polls
-- where an argument, a resource, the interface or the attachment is missing; and otherwise it polls
-- and exits as its loop says.
pub main_of-expected : (e : Example) (w : Answers) → summary (main_of e w) ≡ expected (plan_of e) w
main_of-expected e w = (main_of-Meets e w).1

-- Whatever the environment answers, a loader of S2-advanced releases everything that it acquired
-- exactly once, an object only behind what stands on it, and polls no ring that it does not hold.
pub main_of_clean : (e : Example) (w : Answers) → held_after (main_of e w).calls ≡ some []
main_of_clean e w = (main_of-Meets e w).0
