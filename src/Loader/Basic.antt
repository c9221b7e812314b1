-- ===== src/Loader/Basic.antt =====
-- The loaders of S1-basic/examples: each looks at the results of `signal`, and prints its maps once
-- a second; those of kprobe, fentry_fexit and lsm read a ring buffer instead.
pub mod Tc
use monsa_ebpf.Base.{
  ℕ, suc, pos, negsuc, List, [], ◌∷◌, Bool, true, not, ◌&&◌, if◌then◌else◌, ltb, ltb_int, ◌==◌,
  String,
}
use monsa_ebpf.Loader.{
  Resource, cgroup_fd, perf_fd, socket_fd, skeleton, tc_hook, tc_filter, link, acquire, Answers,
  Frame, Flow, going, ◌>>◌, return_1, release_now, goto_cleanup, unless, obtain, try_acquire,
  is_held, is_zero, is_exist, attach, show_all, release_held, Outcome, run, Example, kprobe,
  kretprobe, raw_tracepoint, tracepoint, fentry_fexit, xdp, tc, socket_filter, sk_lookup,
  cgroup_bpf, cgroup_device, cgroup_skb, cgroup_sock, cgroup_sock_addr, cgroup_sockopt,
  cgroup_sysctl, perf_event, uprobe, uretprobe, lsm,
}
use monsa_ebpf.Loader.Basic.Tc.{tc_main}
use monsa_ebpf.Loader.Advanced.{attach_and_poll_checked}

unfoldable pub kprobe_main : Answers → Outcome
unfolding attach_and_poll_checked
kprobe_main = attach_and_poll_checked "example_kprobe_bpf" "exec_events"

unfoldable pub fentry_fexit_main : Answers → Outcome
unfolding attach_and_poll_checked
fentry_fexit_main = attach_and_poll_checked "fentry_exec_latency_bpf" "exec_latency_events"

unfoldable pub lsm_main : Answers → Outcome
unfolding attach_and_poll_checked
lsm_main = attach_and_poll_checked "lsm_file_open_bpf" "file_open_events"

-- The `main` that attaches every program of its object.
unfoldable pub attach_and_show : String → Answers → Outcome
attach_and_show object w =
    run (do unless w.signals return_1; obtain w skeleton object return_1; attach w; show_all w)
      (release_held skeleton)

unfoldable pub kretprobe_main : Answers → Outcome
unfolding attach_and_show
kretprobe_main = attach_and_show "example_kretprobe_bpf"

unfoldable pub raw_tracepoint_main : Answers → Outcome
unfolding attach_and_show
raw_tracepoint_main = attach_and_show "example_raw_tracepoint_bpf"

unfoldable pub tracepoint_main : Answers → Outcome
unfolding attach_and_show
tracepoint_main = attach_and_show "example_tracepoint_bpf"

unfoldable pub cgroup_bpf_main : Answers → Outcome
unfolding attach_and_show
cgroup_bpf_main = attach_and_show "example_cgroup_bpf_bpf"

-- The calls of `bpf_program__attach_cgroup` that set links 0, 1, ...; their results are looked at
-- behind the last of them.
unfoldable pub attach_links : Answers → ℕ → List String → Frame → Frame
attach_links w n [] f = f
attach_links w n (program ∷ programs) f =
    attach_links w (suc n) programs (try_acquire w (link n) program f)

unfoldable pub all_set : ℕ → List String → List Resource → Bool
all_set n [] held = true
all_set n (program ∷ programs) held = is_held (link n) held && all_set (suc n) programs held

unfoldable pub obtain_links : Answers → List String → Frame → Flow
unfolding attach_links all_set
obtain_links w programs f =
    let g = attach_links w 0 programs f in
    if all_set 0 programs g.held then going g else goto_cleanup (pos 1) g

-- `bpf_link__destroy` on links 0, 1, ...
unfoldable pub release_links : ℕ → List String → Frame → Frame
release_links n [] f = f
release_links n (program ∷ programs) f = release_links (suc n) programs (release_held (link n) f)

-- The statements behind the label of the cgroup loaders.
unfoldable pub release_cgroup : List String → Frame → Frame
unfolding release_links
release_cgroup programs f =
    release_held cgroup_fd (release_held skeleton (release_links 0 programs f))

-- The `main` that attaches programs to a cgroup.
unfoldable pub attach_to_cgroup_and_show : String → List String → Answers → Outcome
unfolding obtain_links release_cgroup
attach_to_cgroup_and_show object programs w =
    run
      (do
        unless (not (ltb w.argc 2)) return_1
        unless w.signals return_1
        obtain w cgroup_fd "argv[1]" return_1
        obtain w skeleton object (goto_cleanup (pos 1))
        obtain_links w programs
        show_all w)
      (release_cgroup programs)

unfoldable pub cgroup_device_main : Answers → Outcome
unfolding attach_to_cgroup_and_show
cgroup_device_main = attach_to_cgroup_and_show "example_cgroup_device_bpf" ("msb_cgroup_dev" ∷ [])

unfoldable pub cgroup_sock_main : Answers → Outcome
unfolding attach_to_cgroup_and_show
cgroup_sock_main = attach_to_cgroup_and_show "example_cgroup_sock_bpf" ("msb_cgroup_sock" ∷ [])

unfoldable pub cgroup_sysctl_main : Answers → Outcome
unfolding attach_to_cgroup_and_show
cgroup_sysctl_main =
    attach_to_cgroup_and_show "example_cgroup_sysctl_bpf" ("msb_cgroup_sysctl" ∷ [])

unfoldable pub cgroup_skb_main : Answers → Outcome
unfolding attach_to_cgroup_and_show
cgroup_skb_main =
    attach_to_cgroup_and_show "example_cgroup_skb_bpf"
      ("msb_cgroup_ingress" ∷ "msb_cgroup_egress" ∷ [])

unfoldable pub cgroup_sockopt_main : Answers → Outcome
unfolding attach_to_cgroup_and_show
cgroup_sockopt_main =
    attach_to_cgroup_and_show "example_cgroup_sockopt_bpf"
      ("msb_setsockopt" ∷ "msb_getsockopt" ∷ [])

unfoldable pub cgroup_sock_addr_main : Answers → Outcome
unfolding attach_to_cgroup_and_show
cgroup_sock_addr_main = attach_to_cgroup_and_show "example_cgroup_sock_addr_bpf" (
    "msb_connect4" ∷ "msb_connect6" ∷ "msb_bind4" ∷ "msb_bind6" ∷ "msb_sendmsg4" ∷ "msb_sendmsg6"
    ∷ [])

unfoldable pub sk_lookup_main : Answers → Outcome
sk_lookup_main w =
    run
      (do
        unless w.signals return_1
        obtain w skeleton "example_sk_lookup_bpf" return_1
        obtain w (link 0) "msb_sk_lookup" (goto_cleanup (pos 1))
        show_all w)
      (λ f. release_held skeleton (release_held (link 0) f))

unfoldable pub uprobe_main : Answers → Outcome
uprobe_main w =
    run
      (do
        unless (not (ltb w.argc 3)) return_1
        unless w.signals return_1
        obtain w skeleton "example_uprobe_bpf" return_1
        obtain w (link 0) "msb_uprobe_target" (goto_cleanup (pos 1))
        show_all w)
      (λ f. release_held skeleton (release_held (link 0) f))

-- Link 0 is the entry's, link 1 the exit's.
unfoldable pub uretprobe_main : Answers → Outcome
uretprobe_main w =
    run
      (do
        unless (not (ltb w.argc 3)) return_1
        unless w.signals return_1
        obtain w skeleton "example_uretprobe_bpf" return_1
        obtain w (link 0) "msb_uretprobe_entry" (goto_cleanup (pos 1))
        obtain w (link 1) "msb_uretprobe_exit" (goto_cleanup (pos 1))
        show_all w)
      (λ f. release_held skeleton (release_held (link 0) (release_held (link 1) f)))

unfoldable pub xdp_main : Answers → Outcome
xdp_main w =
    run
      (do
        unless (not (ltb w.argc 2)) return_1
        unless (not (w.ifindex == 0)) return_1
        unless w.signals return_1
        obtain w skeleton "xdp_pass_bpf" return_1
        obtain w (link 0) "xdp_pass" (goto_cleanup (negsuc 0))
        show_all w)
      (λ f. release_held skeleton (release_held (link 0) f))

-- The program is attached to the socket by an option of the socket, and goes with it.
unfoldable pub socket_filter_main : Answers → Outcome
socket_filter_main w =
    run
      (do
        unless (not (ltb w.argc 2)) return_1
        unless (not (w.ifindex == 0)) return_1
        unless w.signals return_1
        obtain w skeleton "example_socket_filter_bpf" return_1
        obtain w socket_fd "AF_PACKET" (goto_cleanup (pos 1))
        unless (not (ltb_int w.bound (pos 0))) (goto_cleanup (pos 1))
        unless (not (ltb_int w.filtered (pos 0))) (goto_cleanup (pos 1))
        show_all w)
      (λ f. release_held skeleton (release_held socket_fd f))

unfoldable pub perf_event_main : Answers → Outcome
perf_event_main w =
    run
      (do
        unless w.signals return_1
        obtain w perf_fd "argv[1]" return_1
        obtain w skeleton "example_perf_event_bpf" (goto_cleanup (pos 1))
        obtain w (link 0) "msb_perf_sample" (goto_cleanup (pos 1))
        show_all w)
      (λ f. release_held perf_fd (release_held skeleton (release_held (link 0) f)))

-- S2-advanced/examples/perf/perf_event holds the same file.
unfoldable pub perf_event_folder_main : Answers → Outcome
unfolding perf_event_main
perf_event_folder_main = perf_event_main

unfoldable pub main_of : Example → Answers → Outcome
unfolding kprobe_main kretprobe_main raw_tracepoint_main tracepoint_main fentry_fexit_main xdp_main
    tc_main socket_filter_main sk_lookup_main cgroup_bpf_main cgroup_device_main cgroup_skb_main
    cgroup_sock_main cgroup_sock_addr_main cgroup_sockopt_main cgroup_sysctl_main perf_event_main
    uprobe_main uretprobe_main lsm_main
main_of kprobe = kprobe_main
main_of kretprobe = kretprobe_main
main_of raw_tracepoint = raw_tracepoint_main
main_of tracepoint = tracepoint_main
main_of fentry_fexit = fentry_fexit_main
main_of xdp = xdp_main
main_of tc = tc_main
main_of socket_filter = socket_filter_main
main_of sk_lookup = sk_lookup_main
main_of cgroup_bpf = cgroup_bpf_main
main_of cgroup_device = cgroup_device_main
main_of cgroup_skb = cgroup_skb_main
main_of cgroup_sock = cgroup_sock_main
main_of cgroup_sock_addr = cgroup_sock_addr_main
main_of cgroup_sockopt = cgroup_sockopt_main
main_of cgroup_sysctl = cgroup_sysctl_main
main_of perf_event = perf_event_main
main_of uprobe = uprobe_main
main_of uretprobe = uretprobe_main
main_of lsm = lsm_main
