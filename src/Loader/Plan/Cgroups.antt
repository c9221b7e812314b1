-- ===== src/Loader/Plan/Cgroups.antt =====
-- The cgroup loaders of S1-basic do what their plans ask for, on every path.
use monsa_ebpf.Base.{
  ℤ, pos, ◌≡◌, refl, ◌∙◌, ap, List, [], ◌∷◌, ◌++◌, some, true, false, ltb, inl, inr, Bool-cases,
  replicate, arith, String,
}
use monsa_ebpf.Loader.{cgroup_fd, skeleton, Call, acquire, release, show, Answers, Frame, run}
use monsa_ebpf.Loader.Discipline.{held_after}
use monsa_ebpf.Loader.Plan.{Plan, showing, Meets, polls_in, shows_in, loop_shows, all_granted}
use monsa_ebpf.Loader.Links.{
  links, with_links, all_set-with_links, attach_links_lem, release_links_lem, release_links-none,
  IsFresh, IsSound, is_held_object-with_links,
}
use monsa_ebpf.Loader.Basic.{attach_to_cgroup_and_show, obtain_links, attach_links, release_cgroup}

abbrev pub cgroup_plan : List String → Plan
cgroup_plan programs = record {
  arguments = 2;
  needs_interface = false;
  needs_signals = true;
  resources = cgroup_fd ∷ skeleton ∷ links 0 programs;
  attaches = false;
  filters_socket = false;
  filters_ingress = false;
  loop = showing;
}

abbrev loaded : String → Frame
loaded o = record {
  held = skeleton ∷ cgroup_fd ∷ [];
  err = pos 0;
  calls = acquire skeleton o ∷ acquire cgroup_fd "argv[1]" ∷ [];
}

loaded-IsFresh : (o : String) → IsFresh 0 (loaded o).held
loaded-IsFresh o k h = ground arith

-- A directory alone, and the links over an object and a directory, are released whole.
close_fd :
    (ps : List String) (e : ℤ)
    → release_cgroup ps
        (record { held = cgroup_fd ∷ []; err = e; calls = acquire cgroup_fd "argv[1]" ∷ [] })
      ≡ record { held = []; err = e; calls = release cgroup_fd ∷ acquire cgroup_fd "argv[1]" ∷ [] }
unfolding release_cgroup
close_fd ps e =
    rw
      (release_links-none 0 ps
        (record { held = cgroup_fd ∷ []; err = e; calls = acquire cgroup_fd "argv[1]" ∷ [] })
        (λ k h. ground arith))
      refl

close_all :
    (w : Answers) (ps : List String) (f : Frame)
    → f.held ≡ with_links w 0 ps (skeleton ∷ cgroup_fd ∷ [])
    → IsSound f
    → (held_after (release_cgroup ps f).calls ≡ some [])
      × ((release_cgroup ps f).err ≡ f.err)
      × (polls_in (release_cgroup ps f).calls ≡ polls_in f.calls)
      × (shows_in (release_cgroup ps f).calls ≡ shows_in f.calls)
unfolding release_cgroup
close_all w ps f eq sound =
    let (held, err, sound', polls, shows) =
      release_links_lem w 0 ps f (skeleton ∷ cgroup_fd ∷ []) (loaded-IsFresh "") eq sound in
    rw (held, release_cgroup) (rw (sound', held) refl, err, polls, shows)

abbrev linked : Answers → List String → ℤ → List Call → Frame
linked w ps e calls = record {
  held = with_links w 0 ps (skeleton ∷ cgroup_fd ∷ []);
  err = e;
  calls = calls;
}

pub attach_to_cgroup_and_show-Meets :
    (o : String) (ps : List String) (w : Answers)
    → Meets (cgroup_plan ps) w (attach_to_cgroup_and_show o ps w)
unfolding attach_to_cgroup_and_show obtain_links
attach_to_cgroup_and_show-Meets o ps w = elim (Bool-cases (ltb w.argc 2)) [
  | inl e0 ↦ rw (e0, attach_to_cgroup_and_show, run, held_after) (ground arith)
  | inr e0 ↦ elim (Bool-cases w.signals) [
    | inr e1 ↦ rw (e0, e1, attach_to_cgroup_and_show, run, held_after) (ground arith)
    | inl e1 ↦ elim (Bool-cases (w.grants cgroup_fd)) [
      | inr e2 ↦ rw (e0, e1, e2, attach_to_cgroup_and_show, run, held_after) (ground arith)
      | inl e2 ↦ elim (Bool-cases (w.grants skeleton)) [
        | inr e3 ↦
            rw (e0, e1, e2, e3, attach_to_cgroup_and_show, run, held_after, close_fd ps (pos 1))
              (ground arith)
        | inl e3 ↦
            let set = all_set-with_links w 0 ps (loaded o).held (loaded-IsFresh o) in
            let (held, err, sound, polls, shows) =
              attach_links_lem w 0 ps (loaded o) (loaded-IsFresh o) refl refl in
            elim (Bool-cases (all_granted w (links 0 ps))) [
              | inr e4 ↦
                  rw (e0, e1, e2, e3, attach_to_cgroup_and_show, run, held_after, held, set, e4)
                    (let (clean, err_eq, polls_eq, shows_eq) =
                        close_all w ps (linked w ps (pos 1) (attach_links w 0 ps (loaded o)).calls)
                          refl (sound ∙ ap some held) in
                      rw (clean, err_eq, polls_eq, shows_eq, polls, shows) (refl, refl))
              | inl e4 ↦
                  rw (e0, e1, e2, e3, attach_to_cgroup_and_show, run, held_after, held, set, e4)
                    (rw (held, err)
                      (let here =
                          is_held_object-with_links w 0 ps (skeleton ∷ cgroup_fd ∷ []) refl in
                        let (after, no_polls, prints) =
                          loop_shows w.rounds (attach_links w 0 ps (loaded o)).calls
                            (sound ∙ ap some held) here in
                        let (clean, err_eq, polls_eq, shows_eq) =
                          close_all w ps
                            (linked w ps (pos 0)
                              (replicate w.rounds show ++ (attach_links w 0 ps (loaded o)).calls))
                            refl after in
                        rw (clean, err_eq, polls_eq, shows_eq, no_polls, prints, polls, shows)
                          (refl, ground arith)))
            ]
      ]
    ]
  ]
]
