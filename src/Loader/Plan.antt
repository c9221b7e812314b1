-- ===== src/Loader/Plan.antt =====
-- What each loader has to do: the arguments and resources that it needs, and how it loops once it has
-- them; and what an execution that does this shows.
pub mod Advanced
pub mod Basic
pub mod Cgroups
pub mod Tc
pub mod AllBasic
pub mod AllAdvanced
use monsa_ebpf.Base.{
  ℕ, zero, suc, ◌+◌, ℤ, pos, negsuc, ◌≡◌, refl, List, [], ◌∷◌, ◌++◌, length, Option, some, Bool,
  true, false, not, ◌&&◌, ◌||◌, if◌then◌else◌, ltb, ltb_int, ◌==◌, replicate, arith,
}
use monsa_ebpf.Loader.{
  Resource, skeleton, ring, is_held, Call, acquire, release, poll, show, Answers, Outcome, is_zero,
  is_exist, status_of, polls_made, err_after,
}
use monsa_ebpf.Loader.Discipline.{held_after}

-- A loop that ignores what the polls return, one that looks at it, and one that prints.
pub data Loop : Type 0 where
  ignoring : Loop
  checking : Loop
  showing : Loop

pub record Plan : Type 0 where
  pub arguments : ℕ
  pub needs_interface : Bool
  pub needs_signals : Bool
  pub resources : List Resource
  pub attaches : Bool
  pub filters_socket : Bool
  pub filters_ingress : Bool
  pub loop : Loop

abbrev pub all_granted : Answers → List Resource → Bool
all_granted w [] = true
all_granted w (r ∷ rs) = w.grants r && all_granted w rs

-- Whether everything that the plan needs is there.
abbrev pub is_ready : Plan → Answers → Bool
is_ready p w =
    not (ltb w.argc p.arguments)
    && ((not p.needs_interface || not (w.ifindex == 0))
        && ((not p.needs_signals || w.signals)
            && (all_granted w p.resources
                && ((not p.attaches || is_zero w.attached)
                    && ((not p.filters_socket
                          || (not (ltb_int w.bound (pos 0)) && not (ltb_int w.filtered (pos 0))))
                        && (not p.filters_ingress
                            || ((is_zero w.hook_created || is_exist w.hook_created)
                                && is_zero w.filter_attached)))))))

-- The exit status, the polls and the prints of a loop.
pub record Summary : Type 0 where
  pub status : ℕ
  pub polls : ℕ
  pub shows : ℕ

abbrev pub perform : Loop → Answers → Summary
perform ignoring w = record { status = 0; polls = length w.polls; shows = 0 }
perform checking w = record {
  status = status_of (err_after (pos 0) w.polls);
  polls = polls_made w.polls;
  shows = 0;
}
perform showing w = record { status = 0; polls = 0; shows = w.rounds }

-- Nothing is looped where something is missing, and the status is 1.
abbrev pub expected : Plan → Answers → Summary
expected p w =
    if is_ready p w then perform p.loop w else record { status = 1; polls = 0; shows = 0 }

abbrev pub polls_in : List Call → ℕ
polls_in [] = 0
polls_in (acquire r name ∷ cs) = polls_in cs
polls_in (release r ∷ cs) = polls_in cs
polls_in (poll ∷ cs) = suc (polls_in cs)
polls_in (show ∷ cs) = polls_in cs

abbrev pub shows_in : List Call → ℕ
shows_in [] = 0
shows_in (acquire r name ∷ cs) = shows_in cs
shows_in (release r ∷ cs) = shows_in cs
shows_in (poll ∷ cs) = shows_in cs
shows_in (show ∷ cs) = suc (shows_in cs)

abbrev pub summary : Outcome → Summary
summary o = record { status = o.status; polls = polls_in o.calls; shows = shows_in o.calls }

-- The outcome is what the plan asks for, and nothing is held at the end.
abbrev pub Meets : Plan → Answers → Outcome → Type 0
Meets p w o = (held_after o.calls ≡ some []) × (summary o ≡ expected p w)

-- What a loop adds to the calls before it.
pub loop_polls :
    (n : ℕ) (cs : List Call) {held : List Resource}
    → held_after cs ≡ some held
    → is_held ring held ≡ true
    → (held_after (replicate n poll ++ cs) ≡ some held)
      × (polls_in (replicate n poll ++ cs) ≡ n + polls_in cs)
      × (shows_in (replicate n poll ++ cs) ≡ shows_in cs)
loop_polls zero cs e h = (e, omega arith, refl)
loop_polls (suc n) cs e h =
    let (held, polls, shows) = loop_polls n cs e h in (rw held (rw h), omega (arith, polls), shows)

pub loop_shows :
    (n : ℕ) (cs : List Call) {held : List Resource}
    → held_after cs ≡ some held
    → is_held skeleton held ≡ true
    → (held_after (replicate n show ++ cs) ≡ some held)
      × (polls_in (replicate n show ++ cs) ≡ polls_in cs)
      × (shows_in (replicate n show ++ cs) ≡ n + shows_in cs)
loop_shows zero cs e h = (e, refl, omega arith)
loop_shows (suc n) cs e h =
    let (held, polls, shows) = loop_shows n cs e h in (rw held (rw h), polls, omega (arith, shows))

pub is_zero_eq : (z : ℤ) → is_zero z ≡ true → z ≡ pos 0
is_zero_eq (pos zero) e = refl
is_zero_eq (pos (suc n)) e = cc
is_zero_eq (negsuc n) e = cc
