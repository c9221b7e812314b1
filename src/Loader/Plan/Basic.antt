-- ===== src/Loader/Plan/Basic.antt =====
-- The loaders of S1-basic do what their plans ask for, on every path.
pub mod Interfaces
use monsa_ebpf.Base.{
  pos, refl, [], ◌∷◌, true, false, ◌==◌, ltb, ltb_int, inl, inr, Bool-cases, arith, String,
}
use monsa_ebpf.Loader.{perf_fd, socket_fd, skeleton, link, acquire, Answers}
use monsa_ebpf.Loader.Discipline.{held_after}
use monsa_ebpf.Loader.{run, is_zero}
use monsa_ebpf.Loader.Plan.{Plan, showing, Meets, loop_shows}
use monsa_ebpf.Loader.Basic.{
  attach_and_show, xdp_main, perf_event_main, uprobe_main, uretprobe_main, sk_lookup_main,
  socket_filter_main,
}

abbrev pub attach_and_show_plan : Plan
attach_and_show_plan = record {
  arguments = 0;
  needs_interface = false;
  needs_signals = true;
  resources = skeleton ∷ [];
  attaches = true;
  filters_socket = false;
  filters_ingress = false;
  loop = showing;
}

pub attach_and_show-Meets :
    (o : String) (w : Answers) → Meets attach_and_show_plan w (attach_and_show o w)
unfolding attach_and_show
attach_and_show-Meets o w = elim (Bool-cases (w.signals)) [
  | inr e0 ↦ rw (e0, attach_and_show, run, held_after) (ground arith)
  | inl e0 ↦ elim (Bool-cases (w.grants skeleton)) [
    | inr e1 ↦ rw (e0, e1, attach_and_show, run, held_after) (ground arith)
    | inl e1 ↦ elim (Bool-cases (is_zero w.attached)) [
      | inr e2 ↦ rw (e0, e1, e2, attach_and_show, run, held_after) (ground arith)
      | inl e2 ↦
          let (held, polls, shows) =
            loop_shows w.rounds (acquire skeleton o ∷ []) {held = skeleton ∷ []} refl refl in
          rw (e0, e1, e2, attach_and_show, run, held_after)
            (rw held (rw (polls, shows) (refl, ground (arith))))
    ]
  ]
]

abbrev pub sk_lookup_main_plan : Plan
sk_lookup_main_plan = record {
  arguments = 0;
  needs_interface = false;
  needs_signals = true;
  resources = skeleton ∷ (link 0) ∷ [];
  attaches = false;
  filters_socket = false;
  filters_ingress = false;
  loop = showing;
}

pub sk_lookup_main-Meets : (w : Answers) → Meets sk_lookup_main_plan w (sk_lookup_main w)
unfolding sk_lookup_main
sk_lookup_main-Meets w = elim (Bool-cases (w.signals)) [
  | inr e0 ↦ rw (e0, sk_lookup_main, run, held_after) (ground arith)
  | inl e0 ↦ elim (Bool-cases (w.grants skeleton)) [
    | inr e1 ↦ rw (e0, e1, sk_lookup_main, run, held_after) (ground arith)
    | inl e1 ↦ elim (Bool-cases (w.grants (link 0))) [
      | inr e2 ↦ rw (e0, e1, e2, sk_lookup_main, run, held_after) (ground arith)
      | inl e2 ↦
          let (held, polls, shows) =
            loop_shows w.rounds
              (acquire (link 0) "msb_sk_lookup" ∷ acquire skeleton "example_sk_lookup_bpf" ∷ [])
              {held = link 0 ∷ skeleton ∷ []} refl refl in
          rw (e0, e1, e2, sk_lookup_main, run, held_after)
            (rw held (rw (polls, shows) (refl, ground (arith))))
    ]
  ]
]

abbrev pub uprobe_main_plan : Plan
uprobe_main_plan = record {
  arguments = 3;
  needs_interface = false;
  needs_signals = true;
  resources = skeleton ∷ (link 0) ∷ [];
  attaches = false;
  filters_socket = false;
  filters_ingress = false;
  loop = showing;
}

pub uprobe_main-Meets : (w : Answers) → Meets uprobe_main_plan w (uprobe_main w)
unfolding uprobe_main
uprobe_main-Meets w = elim (Bool-cases (ltb w.argc 3)) [
  | inl e0 ↦ rw (e0, uprobe_main, run, held_after) (ground arith)
  | inr e0 ↦ elim (Bool-cases (w.signals)) [
    | inr e1 ↦ rw (e0, e1, uprobe_main, run, held_after) (ground arith)
    | inl e1 ↦ elim (Bool-cases (w.grants skeleton)) [
      | inr e2 ↦ rw (e0, e1, e2, uprobe_main, run, held_after) (ground arith)
      | inl e2 ↦ elim (Bool-cases (w.grants (link 0))) [
        | inr e3 ↦ rw (e0, e1, e2, e3, uprobe_main, run, held_after) (ground arith)
        | inl e3 ↦
            let (held, polls, shows) =
              loop_shows w.rounds
                (acquire (link 0) "msb_uprobe_target" ∷ acquire skeleton "example_uprobe_bpf" ∷ [])
                {held = link 0 ∷ skeleton ∷ []} refl refl in
            rw (e0, e1, e2, e3, uprobe_main, run, held_after)
              (rw held (rw (polls, shows) (refl, ground (arith))))
      ]
    ]
  ]
]

abbrev pub uretprobe_main_plan : Plan
uretprobe_main_plan = record {
  arguments = 3;
  needs_interface = false;
  needs_signals = true;
  resources = skeleton ∷ (link 0) ∷ (link 1) ∷ [];
  attaches = false;
  filters_socket = false;
  filters_ingress = false;
  loop = showing;
}

pub uretprobe_main-Meets : (w : Answers) → Meets uretprobe_main_plan w (uretprobe_main w)
unfolding uretprobe_main
uretprobe_main-Meets w = elim (Bool-cases (ltb w.argc 3)) [
  | inl e0 ↦ rw (e0, uretprobe_main, run, held_after) (ground arith)
  | inr e0 ↦ elim (Bool-cases (w.signals)) [
    | inr e1 ↦ rw (e0, e1, uretprobe_main, run, held_after) (ground arith)
    | inl e1 ↦ elim (Bool-cases (w.grants skeleton)) [
      | inr e2 ↦ rw (e0, e1, e2, uretprobe_main, run, held_after) (ground arith)
      | inl e2 ↦ elim (Bool-cases (w.grants (link 0))) [
        | inr e3 ↦ rw (e0, e1, e2, e3, uretprobe_main, run, held_after) (ground arith)
        | inl e3 ↦ elim (Bool-cases (w.grants (link 1))) [
          | inr e4 ↦ rw (e0, e1, e2, e3, e4, uretprobe_main, run, held_after) (ground arith)
          | inl e4 ↦
              let (held, polls, shows) =
                loop_shows w.rounds
                  (acquire (link 1) "msb_uretprobe_exit"
                    ∷ acquire (link 0) "msb_uretprobe_entry"
                    ∷ acquire skeleton "example_uretprobe_bpf"
                    ∷ [])
                  {held = link 1 ∷ link 0 ∷ skeleton ∷ []} refl refl in
              rw (e0, e1, e2, e3, e4, uretprobe_main, run, held_after)
                (rw held (rw (polls, shows) (refl, ground (arith))))
        ]
      ]
    ]
  ]
]

abbrev pub perf_event_main_plan : Plan
perf_event_main_plan = record {
  arguments = 0;
  needs_interface = false;
  needs_signals = true;
  resources = perf_fd ∷ skeleton ∷ (link 0) ∷ [];
  attaches = false;
  filters_socket = false;
  filters_ingress = false;
  loop = showing;
}

pub perf_event_main-Meets : (w : Answers) → Meets perf_event_main_plan w (perf_event_main w)
unfolding perf_event_main
perf_event_main-Meets w = elim (Bool-cases (w.signals)) [
  | inr e0 ↦ rw (e0, perf_event_main, run, held_after) (ground arith)
  | inl e0 ↦ elim (Bool-cases (w.grants perf_fd)) [
    | inr e1 ↦ rw (e0, e1, perf_event_main, run, held_after) (ground arith)
    | inl e1 ↦ elim (Bool-cases (w.grants skeleton)) [
      | inr e2 ↦ rw (e0, e1, e2, perf_event_main, run, held_after) (ground arith)
      | inl e2 ↦ elim (Bool-cases (w.grants (link 0))) [
        | inr e3 ↦ rw (e0, e1, e2, e3, perf_event_main, run, held_after) (ground arith)
        | inl e3 ↦
            let (held, polls, shows) =
              loop_shows w.rounds
                (acquire (link 0) "msb_perf_sample"
                  ∷ acquire skeleton "example_perf_event_bpf"
                  ∷ acquire perf_fd "argv[1]"
                  ∷ [])
                {held = link 0 ∷ skeleton ∷ perf_fd ∷ []} refl refl in
            rw (e0, e1, e2, e3, perf_event_main, run, held_after)
              (rw held (rw (polls, shows) (refl, ground (arith))))
      ]
    ]
  ]
]
