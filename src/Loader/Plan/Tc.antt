-- ===== src/Loader/Plan/Tc.antt =====
-- The loader of S1-basic's tc example: it does what its plan asks for, but detaches what it may not
-- have attached.
use monsa_ebpf.Base.{
  ◌≡◌, refl, [], ◌∷◌, none, some, Bool, true, false, not, ◌&&◌, if◌then◌else◌, ltb, ◌==◌,
  Bool-cases, inl, inr, arith,
}
use monsa_ebpf.Loader.{skeleton, tc_hook, tc_filter, acquire, Answers, run, is_zero, is_exist}
use monsa_ebpf.Loader.Discipline.{held_after}
use monsa_ebpf.Loader.Plan.{Plan, showing, summary, expected, loop_shows}
use monsa_ebpf.Loader.Basic.Tc.{tc_main, detach_tc, attach_tc, create_hook, attach_filter}

abbrev pub tc_main_plan : Plan
tc_main_plan = record {
  arguments = 2;
  needs_interface = true;
  needs_signals = true;
  resources = skeleton ∷ [];
  attaches = false;
  filters_socket = false;
  filters_ingress = true;
  loop = showing;
}

-- Whether the run comes as far as attaching.
abbrev pub comes_to_attach : Answers → Bool
comes_to_attach w = not (ltb w.argc 2) && (not (w.ifindex == 0) && (w.signals && w.grants skeleton))

-- The run is what the plan asks for, and keeps the discipline if nothing is attached or all of it is.
tc_main_lem :
    (w : Answers)
    → (summary (tc_main w) ≡ expected tc_main_plan w)
      × (held_after (tc_main w).calls ≡ (
          if comes_to_attach w && not (is_zero w.hook_created && is_zero w.filter_attached)
          then none
          else some []))
unfolding tc_main detach_tc attach_tc create_hook attach_filter
tc_main_lem w = elim (Bool-cases (ltb w.argc 2)) [
  | inl e0 ↦ rw (e0, tc_main, run, held_after) (ground arith)
  | inr e0 ↦ elim (Bool-cases (w.ifindex == 0)) [
    | inl e1 ↦ rw (e0, e1, tc_main, run, held_after) (ground arith)
    | inr e1 ↦ elim (Bool-cases w.signals) [
      | inr e2 ↦ rw (e0, e1, e2, tc_main, run, held_after) (ground arith)
      | inl e2 ↦ elim (Bool-cases (w.grants skeleton)) [
        | inr e3 ↦ rw (e0, e1, e2, e3, tc_main, run, held_after) (ground arith)
        | inl e3 ↦ elim (Bool-cases (is_zero w.hook_created)) [
          | inl e4 ↦ elim (Bool-cases (is_zero w.filter_attached)) [
            | inl e5 ↦
                let (held, polls, shows) =
                  loop_shows w.rounds
                    (acquire tc_filter "msb_tc_classifier"
                      ∷ acquire tc_hook "ingress"
                      ∷ acquire skeleton "example_tc_classifier_bpf"
                      ∷ [])
                    {held = tc_filter ∷ tc_hook ∷ skeleton ∷ []} refl refl in
                rw (e0, e1, e2, e3, e4, e5, tc_main, run, held_after)
                  (rw (polls, shows) (ground arith), rw held refl)
            | inr e5 ↦ rw (e0, e1, e2, e3, e4, e5, tc_main, run, held_after) (ground arith)
          ]
          | inr e4 ↦ elim (Bool-cases (is_exist w.hook_created)) [
            | inr e5 ↦ rw (e0, e1, e2, e3, e4, e5, tc_main, run, held_after) (ground arith)
            | inl e5 ↦ elim (Bool-cases (is_zero w.filter_attached)) [
              | inr e6 ↦ rw (e0, e1, e2, e3, e4, e5, e6, tc_main, run, held_after) (ground arith)
              | inl e6 ↦
                  let (held, polls, shows) =
                    loop_shows w.rounds
                      (acquire tc_filter "msb_tc_classifier"
                        ∷ acquire skeleton "example_tc_classifier_bpf"
                        ∷ [])
                      {held = tc_filter ∷ skeleton ∷ []} refl refl in
                  rw (e0, e1, e2, e3, e4, e5, e6, tc_main, run, held_after)
                    (rw (polls, shows) (ground arith), rw held refl)
            ]
          ]
        ]
      ]
    ]
  ]
]

pub tc_main-expected : (w : Answers) → summary (tc_main w) ≡ expected tc_main_plan w
tc_main-expected w = (tc_main_lem w).0

-- A run of the tc loader breaks that discipline exactly if it comes to attaching and did not both
-- create the hook and attach the filter: it detaches them all the same.
pub tc_main_detaches :
    (w : Answers)
    → held_after (tc_main w).calls ≡ (
        if comes_to_attach w && not (is_zero w.hook_created && is_zero w.filter_attached)
        then none
        else some [])
tc_main_detaches w = (tc_main_lem w).1
