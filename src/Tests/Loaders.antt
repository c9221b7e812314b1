-- ===== src/Tests/Loaders.antt =====
-- The loaders with environments that grant all, or let one thing fail.
use monsa_ebpf.Base.{
  ◌≡◌, refl, if◌then◌else◌, ◌==◌, List, [], ◌∷◌, Bool, true, false, pos, negsuc, some, none, ℤ,
}
use monsa_ebpf.Loader.{Resource, Answers, xdp, cgroup_sock_addr, ring, link}
use monsa_ebpf.Loader.Advanced.{main_of, attach_and_poll_checked}
use monsa_ebpf.Loader.Basic
use monsa_ebpf.Loader.Basic.Tc.{tc_main}
use monsa_ebpf.Loader.Discipline.{held_after}
use monsa_ebpf.Loader.Plan.{summary}
use monsa_ebpf.Loader.Plan.AllAdvanced.{main_of-expected, main_of_clean}
use monsa_ebpf.Loader.Plan.AllBasic.{basic_main_of-expected, basic_main_of_clean}
use monsa_ebpf.Loader.Plan.Tc.{tc_main_detaches}
use monsa_ebpf.Loader.Polling.{first_failure, stopped_behind_records}

abbrev pub answers : (Resource → Bool) → ℤ → List ℤ → Answers
answers grants filter polls = record {
  argc = 3;
  signals = true;
  ifindex = 2;
  grants = grants;
  attached = pos 0;
  bound = pos 0;
  filtered = pos 0;
  hook_created = pos 0;
  filter_attached = filter;
  polls = polls;
  rounds = 2;
}

abbrev pub all : Resource → Bool
all r = true

-- The ring of the xdp example cannot be made.
abbrev no_ring : Resource → Bool
no_ring ring = false
no_ring r = true

abbrev no_third_link : Resource → Bool
no_third_link (link n) = if n == 2 then false else true
no_third_link r = true

main_of-expected_example :
    summary (main_of xdp (answers no_ring (pos 0) [])) ≡ record { status = 1; polls = 0; shows = 0 }
main_of-expected_example = main_of-expected xdp (answers no_ring (pos 0) [])

main_of_clean_example : held_after (main_of xdp (answers no_ring (pos 0) [])).calls ≡ some []
main_of_clean_example = main_of_clean xdp (answers no_ring (pos 0) [])

basic_main_of-expected_example :
    summary (Basic.main_of cgroup_sock_addr (answers no_third_link (pos 0) []))
    ≡ record { status = 1; polls = 0; shows = 0 }
basic_main_of-expected_example =
    basic_main_of-expected cgroup_sock_addr (answers no_third_link (pos 0) [])

basic_main_of_clean_example :
    held_after (Basic.main_of cgroup_sock_addr (answers no_third_link (pos 0) [])).calls ≡ some []
basic_main_of_clean_example =
    basic_main_of_clean cgroup_sock_addr (answers no_third_link (pos 0) []) (λ e. cc)

tc_main_detaches_example : held_after (tc_main (answers all (negsuc 21) [])).calls ≡ none
tc_main_detaches_example = tc_main_detaches (answers all (negsuc 21) [])

-- Two polls, then EINTR; and with EBADF.
first_failure_example :
    summary (
      attach_and_poll_checked "object" "ring" (answers all (pos 0) (pos 0 ∷ pos 4 ∷ negsuc 3 ∷ [])))
    ≡ record { status = 0; polls = 3; shows = 0 }
first_failure_example =
    first_failure "object" "ring" (answers all (pos 0) (pos 0 ∷ pos 4 ∷ negsuc 3 ∷ [])) refl
      (pos 0 ∷ pos 4 ∷ []) (negsuc 3) [] refl (refl, (refl, tt)) refl

stopped_behind_records_example :
    summary (attach_and_poll_checked "object" "ring" (answers all (pos 0) (pos 0 ∷ pos 4 ∷ [])))
    ≡ record { status = 1; polls = 2; shows = 0 }
stopped_behind_records_example =
    stopped_behind_records "object" "ring" (answers all (pos 0) (pos 0 ∷ pos 4 ∷ [])) refl
      (pos 0 ∷ []) 3 refl (refl, tt)
