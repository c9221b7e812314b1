-- ===== src/Loader/Plan/Advanced/Links.antt =====
-- The loaders of perf_event, uprobe and uretprobe in S2-advanced, which hold links, do what their plans ask for.
use monsa_ebpf.Base.{refl, [], ◌∷◌, length, false, ltb, inl, inr, Bool-cases, arith}
use monsa_ebpf.Loader.{perf_fd, skeleton, ring, link, acquire, Answers}
use monsa_ebpf.Loader.Discipline.{held_after}
use monsa_ebpf.Loader.{run}
use monsa_ebpf.Loader.Plan.{Plan, ignoring, Meets, loop_polls}
use monsa_ebpf.Loader.Advanced.{perf_event_main, uprobe_main, uretprobe_main}

abbrev pub perf_event_main_plan : Plan
perf_event_main_plan = record {
  arguments = 0;
  needs_interface = false;
  needs_signals = false;
  resources = skeleton ∷ perf_fd ∷ (link 0) ∷ ring ∷ [];
  attaches = false;
  filters_socket = false;
  filters_ingress = false;
  loop = ignoring;
}

pub perf_event_main-Meets : (w : Answers) → Meets perf_event_main_plan w (perf_event_main w)
unfolding perf_event_main
perf_event_main-Meets w = elim (Bool-cases (w.grants skeleton)) [
  | inr e0 ↦ rw (e0, perf_event_main, run, held_after) (ground arith)
  | inl e0 ↦ elim (Bool-cases (w.grants perf_fd)) [
    | inr e1 ↦ rw (e0, e1, perf_event_main, run, held_after) (ground arith)
    | inl e1 ↦ elim (Bool-cases (w.grants (link 0))) [
      | inr e2 ↦ rw (e0, e1, e2, perf_event_main, run, held_after) (ground arith)
      | inl e2 ↦ elim (Bool-cases (w.grants ring)) [
        | inr e3 ↦ rw (e0, e1, e2, e3, perf_event_main, run, held_after) (ground arith)
        | inl e3 ↦
            let (held, polls, shows) =
              loop_polls (length w.polls)
                (acquire ring "perf_events"
                  ∷ acquire (link 0) "msb_perf_event"
                  ∷ acquire perf_fd "cpu-cycles"
                  ∷ acquire skeleton "example_perf_event_bpf"
                  ∷ [])
                {held = ring ∷ link 0 ∷ perf_fd ∷ skeleton ∷ []} refl refl in
            rw (e0, e1, e2, e3, perf_event_main, run, held_after)
              (rw held (rw (polls, shows) (refl, ground (arith))))
      ]
    ]
  ]
]

abbrev pub uprobe_main_plan : Plan
uprobe_main_plan = record {
  arguments = 3;
  needs_interface = false;
  needs_signals = false;
  resources = skeleton ∷ (link 0) ∷ ring ∷ [];
  attaches = false;
  filters_socket = false;
  filters_ingress = false;
  loop = ignoring;
}

pub uprobe_main-Meets : (w : Answers) → Meets uprobe_main_plan w (uprobe_main w)
unfolding uprobe_main
uprobe_main-Meets w = elim (Bool-cases (ltb w.argc 3)) [
  | inl e0 ↦ rw (e0, uprobe_main, run, held_after) (ground arith)
  | inr e0 ↦ elim (Bool-cases (w.grants skeleton)) [
    | inr e1 ↦ rw (e0, e1, uprobe_main, run, held_after) (ground arith)
    | inl e1 ↦ elim (Bool-cases (w.grants (link 0))) [
      | inr e2 ↦ rw (e0, e1, e2, uprobe_main, run, held_after) (ground arith)
      | inl e2 ↦ elim (Bool-cases (w.grants ring)) [
        | inr e3 ↦ rw (e0, e1, e2, e3, uprobe_main, run, held_after) (ground arith)
        | inl e3 ↦
            let (held, polls, shows) =
              loop_polls (length w.polls)
                (acquire ring "uprobe_events"
                  ∷ acquire (link 0) "msb_uprobe_entry"
                  ∷ acquire skeleton "example_uprobe_bpf"
                  ∷ [])
                {held = ring ∷ link 0 ∷ skeleton ∷ []} refl refl in
            rw (e0, e1, e2, e3, uprobe_main, run, held_after)
              (rw held (rw (polls, shows) (refl, ground (arith))))
      ]
    ]
  ]
]

abbrev pub uretprobe_main_plan : Plan
uretprobe_main_plan = record {
  arguments = 3;
  needs_interface = false;
  needs_signals = false;
  resources = skeleton ∷ (link 0) ∷ (link 1) ∷ ring ∷ [];
  attaches = false;
  filters_socket = false;
  filters_ingress = false;
  loop = ignoring;
}

pub uretprobe_main-Meets : (w : Answers) → Meets uretprobe_main_plan w (uretprobe_main w)
unfolding uretprobe_main
uretprobe_main-Meets w = elim (Bool-cases (ltb w.argc 3)) [
  | inl e0 ↦ rw (e0, uretprobe_main, run, held_after) (ground arith)
  | inr e0 ↦ elim (Bool-cases (w.grants skeleton)) [
    | inr e1 ↦ rw (e0, e1, uretprobe_main, run, held_after) (ground arith)
    | inl e1 ↦ elim (Bool-cases (w.grants (link 0))) [
      | inr e2 ↦ rw (e0, e1, e2, uretprobe_main, run, held_after) (ground arith)
      | inl e2 ↦ elim (Bool-cases (w.grants (link 1))) [
        | inr e3 ↦ rw (e0, e1, e2, e3, uretprobe_main, run, held_after) (ground arith)
        | inl e3 ↦ elim (Bool-cases (w.grants ring)) [
          | inr e4 ↦ rw (e0, e1, e2, e3, e4, uretprobe_main, run, held_after) (ground arith)
          | inl e4 ↦
              let (held, polls, shows) =
                loop_polls (length w.polls)
                  (acquire ring "uretprobe_events"
                    ∷ acquire (link 1) "msb_uretprobe_exit"
                    ∷ acquire (link 0) "msb_uretprobe_entry"
                    ∷ acquire skeleton "example_uretprobe_bpf"
                    ∷ [])
                  {held = ring ∷ link 1 ∷ link 0 ∷ skeleton ∷ []} refl refl in
              rw (e0, e1, e2, e3, e4, uretprobe_main, run, held_after)
                (rw held (rw (polls, shows) (refl, ground (arith))))
        ]
      ]
    ]
  ]
]
