-- ===== src/Loader/Basic/Tc.antt =====
-- S1-basic/examples/network/tc/example_tc_classifier_user.c
use monsa_ebpf.Base.{◌∷◌, not, if◌then◌else◌, ltb, ◌==◌}
use monsa_ebpf.Loader.{
  skeleton, tc_hook, tc_filter, acquire, Answers, Frame, Flow, going, ◌>>◌, return_1, release_now,
  goto_cleanup, unless, obtain, is_zero, is_exist, show_all, release_held, Outcome, run,
}

-- Both steps of `attach_tc`, and its result as `err`.
unfoldable pub create_hook : Answers → Frame → Flow
create_hook w f =
    if is_zero w.hook_created
    then going (record f { held = tc_hook ∷ f.held; calls = acquire tc_hook "ingress" ∷ f.calls })
    else if is_exist w.hook_created
    then going f
    else goto_cleanup w.hook_created f

unfoldable pub attach_filter : Answers → Frame → Flow
attach_filter w f =
    if is_zero w.filter_attached
    then going (record f {
      held = tc_filter ∷ f.held;
      calls = acquire tc_filter "msb_tc_classifier" ∷ f.calls;
    })
    else goto_cleanup w.filter_attached f

unfoldable pub attach_tc : Answers → Frame → Flow
unfolding create_hook attach_filter
attach_tc w = do create_hook w; attach_filter w

-- Whether anything was attached or not.
unfoldable pub detach_tc : Frame → Frame
detach_tc f = release_now tc_hook (release_now tc_filter f)

unfoldable pub tc_main : Answers → Outcome
unfolding attach_tc detach_tc
tc_main w =
    run
      (do
        unless (not (ltb w.argc 2)) return_1
        unless (not (w.ifindex == 0)) return_1
        unless w.signals return_1
        obtain w skeleton "example_tc_classifier_bpf" return_1
        attach_tc w
        show_all w)
      (λ f. release_held skeleton (detach_tc f))
