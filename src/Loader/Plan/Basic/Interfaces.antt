-- ===== src/Loader/Plan/Basic/Interfaces.antt =====
-- The loaders of xdp and socket_filter in S1-basic, which need an interface, do what their plans ask for.
use monsa_ebpf.Base.{
  pos, refl, [], ◌∷◌, true, false, ◌==◌, ltb, ltb_int, inl, inr, Bool-cases, arith,
}
use monsa_ebpf.Loader.{socket_fd, skeleton, link, acquire, Answers}
use monsa_ebpf.Loader.Discipline.{held_after}
use monsa_ebpf.Loader.{run}
use monsa_ebpf.Loader.Plan.{Plan, showing, Meets, loop_shows}
use monsa_ebpf.Loader.Basic.{xdp_main, socket_filter_main}

abbrev pub xdp_main_plan : Plan
xdp_main_plan = record {
  arguments = 2;
  needs_interface = true;
  needs_signals = true;
  resources = skeleton ∷ (link 0) ∷ [];
  attaches = false;
  filters_socket = false;
  filters_ingress = false;
  loop = showing;
}

pub xdp_main-Meets : (w : Answers) → Meets xdp_main_plan w (xdp_main w)
unfolding xdp_main
xdp_main-Meets w = elim (Bool-cases (ltb w.argc 2)) [
  | inl e0 ↦ rw (e0, xdp_main, run, held_after) (ground arith)
  | inr e0 ↦ elim (Bool-cases (w.ifindex == 0)) [
    | inl e1 ↦ rw (e0, e1, xdp_main, run, held_after) (ground arith)
    | inr e1 ↦ elim (Bool-cases (w.signals)) [
      | inr e2 ↦ rw (e0, e1, e2, xdp_main, run, held_after) (ground arith)
      | inl e2 ↦ elim (Bool-cases (w.grants skeleton)) [
        | inr e3 ↦ rw (e0, e1, e2, e3, xdp_main, run, held_after) (ground arith)
        | inl e3 ↦ elim (Bool-cases (w.grants (link 0))) [
          | inr e4 ↦ rw (e0, e1, e2, e3, e4, xdp_main, run, held_after) (ground arith)
          | inl e4 ↦
              let (held, polls, shows) =
                loop_shows w.rounds
                  (acquire (link 0) "xdp_pass" ∷ acquire skeleton "xdp_pass_bpf" ∷ [])
                  {held = link 0 ∷ skeleton ∷ []} refl refl in
              rw (e0, e1, e2, e3, e4, xdp_main, run, held_after)
                (rw held (rw (polls, shows) (refl, ground (arith))))
        ]
      ]
    ]
  ]
]

abbrev pub socket_filter_main_plan : Plan
socket_filter_main_plan = record {
  arguments = 2;
  needs_interface = true;
  needs_signals = true;
  resources = skeleton ∷ socket_fd ∷ [];
  attaches = false;
  filters_socket = true;
  filters_ingress = false;
  loop = showing;
}

pub socket_filter_main-Meets :
    (w : Answers) → Meets socket_filter_main_plan w (socket_filter_main w)
unfolding socket_filter_main
socket_filter_main-Meets w = elim (Bool-cases (ltb w.argc 2)) [
  | inl e0 ↦ rw (e0, socket_filter_main, run, held_after) (ground arith)
  | inr e0 ↦ elim (Bool-cases (w.ifindex == 0)) [
    | inl e1 ↦ rw (e0, e1, socket_filter_main, run, held_after) (ground arith)
    | inr e1 ↦ elim (Bool-cases (w.signals)) [
      | inr e2 ↦ rw (e0, e1, e2, socket_filter_main, run, held_after) (ground arith)
      | inl e2 ↦ elim (Bool-cases (w.grants skeleton)) [
        | inr e3 ↦ rw (e0, e1, e2, e3, socket_filter_main, run, held_after) (ground arith)
        | inl e3 ↦ elim (Bool-cases (w.grants socket_fd)) [
          | inr e4 ↦ rw (e0, e1, e2, e3, e4, socket_filter_main, run, held_after) (ground arith)
          | inl e4 ↦ elim (Bool-cases (ltb_int w.bound (pos 0))) [
            | inl e5 ↦
                rw (e0, e1, e2, e3, e4, e5, socket_filter_main, run, held_after) (ground arith)
            | inr e5 ↦ elim (Bool-cases (ltb_int w.filtered (pos 0))) [
              | inl e6 ↦
                  rw (e0, e1, e2, e3, e4, e5, e6, socket_filter_main, run, held_after)
                    (ground arith)
              | inr e6 ↦
                  let (held, polls, shows) =
                    loop_shows w.rounds
                      (acquire socket_fd "AF_PACKET"
                        ∷ acquire skeleton "example_socket_filter_bpf"
                        ∷ [])
                      {held = socket_fd ∷ skeleton ∷ []} refl refl in
                  rw (e0, e1, e2, e3, e4, e5, e6, socket_filter_main, run, held_after)
                    (rw held (rw (polls, shows) (refl, ground (arith))))
            ]
          ]
        ]
      ]
    ]
  ]
]
