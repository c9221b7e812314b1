-- ===== src/Loader/Plan/Advanced.antt =====
-- The loaders of S2-advanced do what their plans ask for, on every path.
pub mod Links
use monsa_ebpf.Base.{
  refl, [], ◌∷◌, length, true, false, ◌==◌, ltb, inl, inr, Bool-cases, arith, String,
}
use monsa_ebpf.Loader.{
  cgroup_fd, perf_fd, skeleton, ring, xdp_program, link, acquire, Answers, polls_made,
}
use monsa_ebpf.Loader.Discipline.{held_after}
use monsa_ebpf.Loader.{run, is_zero}
use monsa_ebpf.Loader.Plan.{Plan, ignoring, checking, Meets, loop_polls, is_zero_eq}
use monsa_ebpf.Loader.Advanced.{
  attach_and_poll, attach_to_cgroup_and_poll, tc_main, xdp_main, attach_xdp, detach_behind,
  perf_event_main, uprobe_main, uretprobe_main, attach_and_poll_checked, free_ring_and_skeleton,
}

abbrev pub attach_and_poll_plan : Plan
attach_and_poll_plan = record {
  arguments = 0;
  needs_interface = false;
  needs_signals = false;
  resources = skeleton ∷ ring ∷ [];
  attaches = true;
  filters_socket = false;
  filters_ingress = false;
  loop = ignoring;
}

pub attach_and_poll-Meets :
    (o : String) (m : String) (w : Answers) → Meets attach_and_poll_plan w (attach_and_poll o m w)
unfolding attach_and_poll free_ring_and_skeleton
attach_and_poll-Meets o m w = elim (Bool-cases (w.grants skeleton)) [
  | inr e0 ↦ rw (e0, attach_and_poll, run, held_after) (ground arith)
  | inl e0 ↦ elim (Bool-cases (is_zero w.attached)) [
    | inr e1 ↦ rw (e0, e1, attach_and_poll, run, held_after) (ground arith)
    | inl e1 ↦ elim (Bool-cases (w.grants ring)) [
      | inr e2 ↦ rw (e0, e1, e2, attach_and_poll, run, held_after) (ground arith)
      | inl e2 ↦
          let (held, polls, shows) =
            loop_polls (length w.polls) (acquire ring m ∷ acquire skeleton o ∷ [])
              {held = ring ∷ skeleton ∷ []} refl refl in
          rw (e0, e1, e2, attach_and_poll, run, held_after)
            (rw held (rw (polls, shows) (refl, ground (arith))))
    ]
  ]
]

abbrev pub attach_to_cgroup_and_poll_plan : Plan
attach_to_cgroup_and_poll_plan = record {
  arguments = 2;
  needs_interface = false;
  needs_signals = false;
  resources = cgroup_fd ∷ skeleton ∷ (link 0) ∷ ring ∷ [];
  attaches = false;
  filters_socket = false;
  filters_ingress = false;
  loop = ignoring;
}

pub attach_to_cgroup_and_poll-Meets :
    (o : String) (p : String) (m : String) (w : Answers)
    → Meets attach_to_cgroup_and_poll_plan w (attach_to_cgroup_and_poll o p m w)
unfolding attach_to_cgroup_and_poll
attach_to_cgroup_and_poll-Meets o p m w = elim (Bool-cases (ltb w.argc 2)) [
  | inl e0 ↦ rw (e0, attach_to_cgroup_and_poll, run, held_after) (ground arith)
  | inr e0 ↦ elim (Bool-cases (w.grants cgroup_fd)) [
    | inr e1 ↦ rw (e0, e1, attach_to_cgroup_and_poll, run, held_after) (ground arith)
    | inl e1 ↦ elim (Bool-cases (w.grants skeleton)) [
      | inr e2 ↦ rw (e0, e1, e2, attach_to_cgroup_and_poll, run, held_after) (ground arith)
      | inl e2 ↦ elim (Bool-cases (w.grants (link 0))) [
        | inr e3 ↦ rw (e0, e1, e2, e3, attach_to_cgroup_and_poll, run, held_after) (ground arith)
        | inl e3 ↦ elim (Bool-cases (w.grants ring)) [
          | inr e4 ↦
              rw (e0, e1, e2, e3, e4, attach_to_cgroup_and_poll, run, held_after) (ground arith)
          | inl e4 ↦
              let (held, polls, shows) =
                loop_polls (length w.polls)
                  (acquire ring m
                    ∷ acquire (link 0) p
                    ∷ acquire skeleton o
                    ∷ acquire cgroup_fd "argv[1]"
                    ∷ [])
                  {held = ring ∷ link 0 ∷ skeleton ∷ cgroup_fd ∷ []} refl refl in
              rw (e0, e1, e2, e3, e4, attach_to_cgroup_and_poll, run, held_after)
                (rw held (rw (polls, shows) (refl, ground (arith))))
        ]
      ]
    ]
  ]
]

abbrev pub tc_main_plan : Plan
tc_main_plan = record {
  arguments = 2;
  needs_interface = false;
  needs_signals = false;
  resources = skeleton ∷ ring ∷ [];
  attaches = false;
  filters_socket = false;
  filters_ingress = false;
  loop = ignoring;
}

pub tc_main-Meets : (w : Answers) → Meets tc_main_plan w (tc_main w)
unfolding tc_main free_ring_and_skeleton
tc_main-Meets w = elim (Bool-cases (ltb w.argc 2)) [
  | inl e0 ↦ rw (e0, tc_main, run, held_after) (ground arith)
  | inr e0 ↦ elim (Bool-cases (w.grants skeleton)) [
    | inr e1 ↦ rw (e0, e1, tc_main, run, held_after) (ground arith)
    | inl e1 ↦ elim (Bool-cases (w.grants ring)) [
      | inr e2 ↦ rw (e0, e1, e2, tc_main, run, held_after) (ground arith)
      | inl e2 ↦
          let (held, polls, shows) =
            loop_polls (length w.polls)
              (acquire ring "tc_events" ∷ acquire skeleton "example_tc_classifier_bpf" ∷ [])
              {held = ring ∷ skeleton ∷ []} refl refl in
          rw (e0, e1, e2, tc_main, run, held_after)
            (rw held (rw (polls, shows) (refl, ground (arith))))
    ]
  ]
]

abbrev pub xdp_main_plan : Plan
xdp_main_plan = record {
  arguments = 2;
  needs_interface = true;
  needs_signals = false;
  resources = skeleton ∷ ring ∷ [];
  attaches = true;
  filters_socket = false;
  filters_ingress = false;
  loop = ignoring;
}

pub xdp_main-Meets : (w : Answers) → Meets xdp_main_plan w (xdp_main w)
unfolding xdp_main free_ring_and_skeleton detach_behind attach_xdp
xdp_main-Meets w = elim (Bool-cases (ltb w.argc 2)) [
  | inl e0 ↦ rw (e0, xdp_main, run, held_after) (ground arith)
  | inr e0 ↦ elim (Bool-cases (w.ifindex == 0)) [
    | inl e1 ↦ rw (e0, e1, xdp_main, run, held_after) (ground arith)
    | inr e1 ↦ elim (Bool-cases (w.grants skeleton)) [
      | inr e2 ↦ rw (e0, e1, e2, xdp_main, run, held_after) (ground arith)
      | inl e2 ↦ elim (Bool-cases (is_zero w.attached)) [
        | inr e3 ↦ rw (e0, e1, e2, e3, xdp_main, run, held_after) (ground arith)
        | inl e3 ↦ elim (Bool-cases (w.grants ring)) [
          | inr e4 ↦ rw (e0, e1, e2, e3, e4, xdp_main, run, held_after) (ground arith)
          | inl e4 ↦
              let (held, polls, shows) =
                loop_polls (length w.polls)
                  (acquire ring "xdp_events"
                    ∷ acquire xdp_program "xdp_pass"
                    ∷ acquire skeleton "xdp_pass_bpf"
                    ∷ [])
                  {held = ring ∷ xdp_program ∷ skeleton ∷ []} refl refl in
              rw (e0, e1, e2, e3, e4, xdp_main, run, held_after)
                (rw held (rw (polls, shows) (refl, ground (arith))))
        ]
      ]
    ]
  ]
]

abbrev pub attach_and_poll_checked_plan : Plan
attach_and_poll_checked_plan = record {
  arguments = 0;
  needs_interface = false;
  needs_signals = true;
  resources = skeleton ∷ ring ∷ [];
  attaches = true;
  filters_socket = false;
  filters_ingress = false;
  loop = checking;
}

pub attach_and_poll_checked-Meets :
    (o : String) (m : String) (w : Answers)
    → Meets attach_and_poll_checked_plan w (attach_and_poll_checked o m w)
unfolding attach_and_poll_checked free_ring_and_skeleton
attach_and_poll_checked-Meets o m w = elim (Bool-cases (w.signals)) [
  | inr e0 ↦ rw (e0, attach_and_poll_checked, run, held_after) (ground arith)
  | inl e0 ↦ elim (Bool-cases (w.grants skeleton)) [
    | inr e1 ↦ rw (e0, e1, attach_and_poll_checked, run, held_after) (ground arith)
    | inl e1 ↦ elim (Bool-cases (is_zero w.attached)) [
      | inr e2 ↦ rw (e0, e1, e2, attach_and_poll_checked, run, held_after) (ground arith)
      | inl e2 ↦ elim (Bool-cases (w.grants ring)) [
        | inr e3 ↦ rw (e0, e1, e2, e3, attach_and_poll_checked, run, held_after) (ground arith)
        | inl e3 ↦
            let (held, polls, shows) =
              loop_polls (polls_made w.polls) (acquire ring m ∷ acquire skeleton o ∷ [])
                {held = ring ∷ skeleton ∷ []} refl refl in
            rw (e0, e1, e2, e3, attach_and_poll_checked, run, held_after)
              (rw held (rw (polls, shows) (refl, ground (arith, is_zero_eq w.attached e2))))
      ]
    ]
  ]
]
