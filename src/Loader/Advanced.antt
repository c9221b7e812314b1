-- ===== src/Loader/Advanced.antt =====
-- The loaders of S2-advanced/examples: each reads events from a ring buffer. What the calls of
-- `signal` return is looked at in the loaders of kprobe and kretprobe alone.
use monsa_ebpf.Base.{pos, negsuc, ◌∷◌, not, if◌then◌else◌, ltb, ◌==◌, String}
use monsa_ebpf.Loader.{
  Resource, cgroup_fd, perf_fd, skeleton, ring, xdp_program, link, acquire, Answers, Frame, Flow,
  going, cleanup, returned, ◌>>◌, return_1, release_now, close_and_return, goto_cleanup, unless,
  obtain, is_zero, attach, poll_all, poll_checked, release_held, Outcome, run, Example, kprobe,
  kretprobe, raw_tracepoint, tracepoint, fentry_fexit, xdp, tc, socket_filter, sk_lookup,
  cgroup_bpf, cgroup_device, cgroup_skb, cgroup_sock, cgroup_sock_addr, cgroup_sockopt,
  cgroup_sysctl, perf_event, uprobe, uretprobe, lsm,
}

-- `ring_buffer__free(rb); skel__destroy(skel);`
unfoldable pub free_ring_and_skeleton : Frame → Frame
free_ring_and_skeleton f = release_held skeleton (release_held ring f)

-- The `main` that attaches every program of its object, with the names of object and ring.
unfoldable pub attach_and_poll : String → String → Answers → Outcome
unfolding free_ring_and_skeleton
attach_and_poll object ring_map w =
    run
      (do
        obtain w skeleton object return_1
        attach w
        obtain w ring ring_map (goto_cleanup (negsuc 0))
        poll_all w)
      free_ring_and_skeleton

unfoldable pub sk_lookup_main : Answers → Outcome
unfolding attach_and_poll
sk_lookup_main = attach_and_poll "example_sk_lookup_bpf" "sk_lookup_events"

unfoldable pub socket_filter_main : Answers → Outcome
unfolding attach_and_poll
socket_filter_main = attach_and_poll "example_socket_filter_bpf" "sf_events"

unfoldable pub lsm_main : Answers → Outcome
unfolding attach_and_poll
lsm_main = attach_and_poll "lsm_file_open_bpf" "lsm_events"

unfoldable pub fentry_fexit_main : Answers → Outcome
unfolding attach_and_poll
fentry_fexit_main = attach_and_poll "example_fentry_fexit_bpf" "fentry_fexit_events"

unfoldable pub raw_tracepoint_main : Answers → Outcome
unfolding attach_and_poll
raw_tracepoint_main = attach_and_poll "example_raw_tracepoint_bpf" "raw_tp_events"

unfoldable pub tracepoint_main : Answers → Outcome
unfolding attach_and_poll
tracepoint_main = attach_and_poll "example_tracepoint_bpf" "tp_events"

-- The `main` that attaches one program to a cgroup.
unfoldable pub attach_to_cgroup_and_poll : String → String → String → Answers → Outcome
attach_to_cgroup_and_poll object program ring_map w =
    run
      (do
        unless (not (ltb w.argc 2)) return_1
        obtain w cgroup_fd "argv[1]" return_1
        obtain w skeleton object (close_and_return cgroup_fd)
        obtain w (link 0) program (goto_cleanup (pos 1))
        obtain w ring ring_map (goto_cleanup (negsuc 0))
        poll_all w)
      (λ f.
        release_held skeleton (release_now cgroup_fd (release_held (link 0) (release_held ring f))))

unfoldable pub cgroup_bpf_main : Answers → Outcome
unfolding attach_to_cgroup_and_poll
cgroup_bpf_main =
    attach_to_cgroup_and_poll "example_cgroup_bpf_bpf" "msb_cgroup_bpf" "cgroup_bpf_events"

unfoldable pub cgroup_device_main : Answers → Outcome
unfolding attach_to_cgroup_and_poll
cgroup_device_main =
    attach_to_cgroup_and_poll "example_cgroup_device_bpf" "msb_cgroup_device" "cgroup_device_events"

unfoldable pub cgroup_skb_main : Answers → Outcome
unfolding attach_to_cgroup_and_poll
cgroup_skb_main =
    attach_to_cgroup_and_poll "example_cgroup_skb_bpf" "msb_cgroup_skb" "cgroup_skb_events"

unfoldable pub cgroup_sock_main : Answers → Outcome
unfolding attach_to_cgroup_and_poll
cgroup_sock_main =
    attach_to_cgroup_and_poll "example_cgroup_sock_bpf" "msb_cgroup_sock" "cgroup_sock_events"

unfoldable pub cgroup_sock_addr_main : Answers → Outcome
unfolding attach_to_cgroup_and_poll
cgroup_sock_addr_main =
    attach_to_cgroup_and_poll "example_cgroup_sock_addr_bpf" "msb_cgroup_sock_addr"
      "cgroup_sock_addr_events"

unfoldable pub cgroup_sockopt_main : Answers → Outcome
unfolding attach_to_cgroup_and_poll
cgroup_sockopt_main =
    attach_to_cgroup_and_poll "example_cgroup_sockopt_bpf" "msb_cgroup_sockopt"
      "cgroup_sockopt_events"

unfoldable pub cgroup_sysctl_main : Answers → Outcome
unfolding attach_to_cgroup_and_poll
cgroup_sysctl_main =
    attach_to_cgroup_and_poll "example_cgroup_sysctl_bpf" "msb_cgroup_sysctl" "cgroup_sysctl_events"

-- Loads the classifier and leaves attaching it to the `tc` command.
unfoldable pub tc_main : Answers → Outcome
unfolding free_ring_and_skeleton
tc_main w =
    run
      (do
        unless (not (ltb w.argc 2)) return_1
        obtain w skeleton "example_tc_classifier_bpf" return_1
        obtain w ring "tc_events" (goto_cleanup (negsuc 0))
        poll_all w)
      free_ring_and_skeleton

-- The statement behind the label `detach`, which only a jump to `cleanup` from before it skips.
unfoldable pub detach_behind : Resource → (Frame → Flow) → Frame → Flow
detach_behind r body f = elim (body f) [
  | going g ↦ going (release_now r g)
  | cleanup g ↦ going (release_now r g)
  | returned g ↦ returned g
]

-- `err = bpf_xdp_attach(...); if (err) goto cleanup;`
unfoldable pub attach_xdp : Answers → String → Frame → Flow
attach_xdp w program f =
    if is_zero w.attached
    then going (record f {
      held = xdp_program ∷ f.held;
      err = w.attached;
      calls = acquire xdp_program program ∷ f.calls;
    })
    else cleanup (record f { err = w.attached })

unfoldable pub xdp_main : Answers → Outcome
unfolding free_ring_and_skeleton detach_behind attach_xdp
xdp_main w =
    run
      (do
        unless (not (ltb w.argc 2)) return_1
        unless (not (w.ifindex == 0)) return_1
        obtain w skeleton "xdp_pass_bpf" return_1
        attach_xdp w "xdp_pass"
        detach_behind xdp_program
            (do obtain w ring "xdp_events" (goto_cleanup (negsuc 0)); poll_all w))
      free_ring_and_skeleton

-- perf/example_perf_event_user.c
unfoldable pub perf_event_main : Answers → Outcome
perf_event_main w =
    run
      (do
        obtain w skeleton "example_perf_event_bpf" return_1
        obtain w perf_fd "cpu-cycles" (goto_cleanup (pos 1))
        obtain w (link 0) "msb_perf_event" (goto_cleanup (pos 1))
        obtain w ring "perf_events" (goto_cleanup (negsuc 0))
        poll_all w)
      (λ f.
        release_held skeleton (release_held perf_fd (release_held (link 0) (release_held ring f))))

unfoldable pub uprobe_main : Answers → Outcome
uprobe_main w =
    run
      (do
        unless (not (ltb w.argc 3)) return_1
        obtain w skeleton "example_uprobe_bpf" return_1
        obtain w (link 0) "msb_uprobe_entry" (goto_cleanup (pos 1))
        obtain w ring "uprobe_events" (goto_cleanup (negsuc 0))
        poll_all w)
      (λ f. release_held skeleton (release_held (link 0) (release_held ring f)))

-- Link 0 is the entry's, link 1 the exit's.
unfoldable pub uretprobe_main : Answers → Outcome
uretprobe_main w =
    run
      (do
        unless (not (ltb w.argc 3)) return_1
        obtain w skeleton "example_uretprobe_bpf" return_1
        obtain w (link 0) "msb_uretprobe_entry" (goto_cleanup (pos 1))
        obtain w (link 1) "msb_uretprobe_exit" (goto_cleanup (pos 1))
        obtain w ring "uretprobe_events" (goto_cleanup (negsuc 0))
        poll_all w)
      (λ f.
        release_held skeleton (release_held (link 1) (release_held (link 0) (release_held ring f))))

-- The `main` that looks at the results of `signal` and of each poll; S1-basic has it too.
unfoldable pub attach_and_poll_checked : String → String → Answers → Outcome
unfolding free_ring_and_skeleton
attach_and_poll_checked object ring_map w =
    run
      (do
        unless w.signals return_1
        obtain w skeleton object return_1
        attach w
        obtain w ring ring_map (goto_cleanup (negsuc 0))
        poll_checked w)
      free_ring_and_skeleton

unfoldable pub kprobe_main : Answers → Outcome
unfolding attach_and_poll_checked
kprobe_main = attach_and_poll_checked "example_kprobe_bpf" "kprobe_events"

unfoldable pub kretprobe_main : Answers → Outcome
unfolding attach_and_poll_checked
kretprobe_main = attach_and_poll_checked "example_kretprobe_bpf" "kretprobe_events"

unfoldable pub main_of : Example → Answers → Outcome
unfolding kprobe_main kretprobe_main raw_tracepoint_main tracepoint_main fentry_fexit_main xdp_main
    tc_main socket_filter_main sk_lookup_main cgroup_bpf_main cgroup_device_main cgroup_skb_main
    cgroup_sock_main cgroup_sock_addr_main cgroup_sockopt_main cgroup_sysctl_main perf_event_main
    uprobe_main uretprobe_main lsm_main
main_of kprobe = kprobe_main
main_of kretprobe = kretprobe_main
main_of raw_tracepoint = raw_tracepoint_main
main_of tracepoint = tracepoint_main
main_of fentry_fexit = fentry_fexit_main
main_of xdp = xdp_main
main_of tc = tc_main
main_of socket_filter = socket_filter_main
main_of sk_lookup = sk_lookup_main
main_of cgroup_bpf = cgroup_bpf_main
main_of cgroup_device = cgroup_device_main
main_of cgroup_skb = cgroup_skb_main
main_of cgroup_sock = cgroup_sock_main
main_of cgroup_sock_addr = cgroup_sock_addr_main
main_of cgroup_sockopt = cgroup_sockopt_main
main_of cgroup_sysctl = cgroup_sysctl_main
main_of perf_event = perf_event_main
main_of uprobe = uprobe_main
main_of uretprobe = uretprobe_main
main_of lsm = lsm_main
