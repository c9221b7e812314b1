-- ===== src/Loader/Discipline.antt =====
-- What a loader may do with what it holds: the checker of a run's calls.
use monsa_ebpf.Base.{
  List, [], ◌∷◌, Option, none, some, Bool, true, false, not, ◌&&◌, ◌||◌, if◌then◌else◌, ◌==◌,
}
use monsa_ebpf.Loader.{
  Resource, skeleton, ring, xdp_program, tc_filter, link, Call, acquire, release, poll, show,
  is_held, remove, tag,
}

-- What stands on a loaded object.
abbrev pub is_dependent : Resource → Bool
is_dependent (link n) = true
is_dependent ring = true
is_dependent xdp_program = true
is_dependent tc_filter = true
is_dependent r = false

abbrev pub any_dependent : List Resource → Bool
any_dependent [] = false
any_dependent (r ∷ held) = is_dependent r || any_dependent held

-- A call at what is held: `none` where something is acquired twice or released unheld, where a link,
-- a ring or a program is acquired without an object or outlives it, where a ring is polled that is
-- not there, or a map is read of an object that is not there.
abbrev pub step : Call → List Resource → Option (List Resource)
step (acquire r name) held =
    if is_held r held || (is_dependent r && not (is_held skeleton held))
    then none
    else some (r ∷ held)
step (release r) held =
    if not (is_held r held) || (tag r == tag skeleton && any_dependent held)
    then none
    else some (remove r held)
step poll held = if is_held ring held then some held else none
step show held = if is_held skeleton held then some held else none

abbrev pub then_step : Call → Option (List Resource) → Option (List Resource)
then_step c none = none
then_step c (some held) = step c held

-- What is held after the calls, the latest first.
abbrev pub held_after : List Call → Option (List Resource)
held_after [] = some []
held_after (c ∷ cs) = then_step c (held_after cs)
