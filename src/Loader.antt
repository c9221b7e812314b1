-- ===== src/Loader.antt =====
-- The user-space loaders, `*_user.c` of both example trees: what each `main` calls in which order,
-- what it does when a call fails, and what it releases before it exits. What the calls of libbpf
-- and of the system return is a parameter.
pub mod Advanced
pub mod Basic
pub mod Discipline
pub mod Plan
pub mod Links
pub mod Polling
use monsa_ebpf.Base.{
  ℕ, zero, suc, ◌+◌, ℤ, pos, negsuc, List, [], ◌∷◌, ◌++◌, length, replicate, Bool, true, false,
  if◌then◌else◌, ltb, ltb_int, ◌==◌, String,
}

-- What a loader can hold. The skeleton stands for the loaded object.
pub data Resource : Type 0 where
  cgroup_fd : Resource
  perf_fd : Resource
  socket_fd : Resource
  skeleton : Resource
  ring : Resource
  xdp_program : Resource
  tc_hook : Resource
  tc_filter : Resource
  link : ℕ → Resource

abbrev pub tag : Resource → ℕ
tag cgroup_fd = 0
tag perf_fd = 1
tag socket_fd = 2
tag skeleton = 3
tag ring = 4
tag xdp_program = 5
tag tc_hook = 6
tag tc_filter = 7
tag (link n) = 8 + n

abbrev pub is_held : Resource → List Resource → Bool
is_held r [] = false
is_held r (s ∷ held) = if tag r == tag s then true else is_held r held

abbrev pub remove : Resource → List Resource → List Resource
remove r [] = []
remove r (s ∷ held) = if tag r == tag s then held else s ∷ remove r held

-- A call that changes what is held, with the name of the object, the program or the map that it is
-- given, or one round of the loop: a poll of the ring, or a print of the statistics.
pub data Call : Type 0 where
  acquire : Resource → String → Call
  release : Resource → Call
  poll : Call
  show : Call

-- What the environment answers. `grants r` is whether the call that acquires `r` succeeds; `attached`
-- is the result of the skeleton's `attach` and of `bpf_xdp_attach`; `polls` are the results of
-- `ring_buffer__poll` and `rounds` the number of prints up to the signal that stops the loop.
pub record Answers : Type 0 where
  pub argc : ℕ
  pub signals : Bool
  pub ifindex : ℕ
  pub grants : Resource → Bool
  pub attached : ℤ
  pub bound : ℤ
  pub filtered : ℤ
  pub hook_created : ℤ
  pub filter_attached : ℤ
  pub polls : List ℤ
  pub rounds : ℕ

-- The variables of a `main`: which of its pointers and descriptors are set, and `err`; and the calls
-- made so far, the latest first.
pub record Frame : Type 0 where
  pub held : List Resource
  pub err : ℤ
  pub calls : List Call

-- Where a statement leaves a `main`: at the next one, at its label `cleanup`, or returned with 1.
pub data Flow : Type 0 where
  going : Frame → Flow
  cleanup : Frame → Flow
  returned : Frame → Flow

infixl 5 ◌>>◌
abbrev pub ◌>>◌ : (Frame → Flow) → (Frame → Flow) → Frame → Flow
◌>>◌ c d f = elim (c f) [ going g ↦ d g | cleanup g ↦ cleanup g | returned g ↦ returned g ]

-- `return 1;`, and the same after `close(fd)`.
abbrev pub return_1 : Frame → Flow
return_1 f = returned f

abbrev pub release_now : Resource → Frame → Frame
release_now r f = record f { held = remove r f.held; calls = release r ∷ f.calls }

abbrev pub close_and_return : Resource → Frame → Flow
close_and_return r f = returned (release_now r f)

-- `err = e; goto cleanup;`
abbrev pub goto_cleanup : ℤ → Frame → Flow
goto_cleanup e f = cleanup (record f { err = e })

-- `if (!test) { ... }`
abbrev pub unless : Bool → (Frame → Flow) → Frame → Flow
unless true otherwise f = going f
unless false otherwise f = otherwise f

-- A call that sets a variable if it succeeds.
abbrev pub try_acquire : Answers → Resource → String → Frame → Frame
try_acquire w r name f =
    if w.grants r then record f { held = r ∷ f.held; calls = acquire r name ∷ f.calls } else f

-- The same, followed by what the code does where it fails.
abbrev pub obtain : Answers → Resource → String → (Frame → Flow) → Frame → Flow
obtain w r name otherwise f =
    if w.grants r
    then going (record f { held = r ∷ f.held; calls = acquire r name ∷ f.calls })
    else otherwise f

abbrev pub is_zero : ℤ → Bool
is_zero (pos zero) = true
is_zero (pos (suc n)) = false
is_zero (negsuc n) = false

-- -EEXIST: the hook was there before.
abbrev pub is_exist : ℤ → Bool
is_exist (negsuc n) = n == 16
is_exist (pos n) = false

-- `err = attach(skel); if (err) goto cleanup;`
abbrev pub attach : Answers → Frame → Flow
attach w f =
    if is_zero w.attached
    then going (record f { err = w.attached })
    else cleanup (record f { err = w.attached })

-- `while (!stop) ring_buffer__poll(rb, 100);`
abbrev pub poll_all : Answers → Frame → Flow
poll_all w f = going (record f { calls = replicate (length w.polls) poll ++ f.calls })

-- `while (!stop) { print_stats(...); sleep(1); }`
abbrev pub show_all : Answers → Frame → Flow
show_all w f = going (record f { calls = replicate w.rounds show ++ f.calls })

-- -EINTR.
abbrev pub is_interrupted : ℤ → Bool
is_interrupted (negsuc n) = n == 3
is_interrupted (pos n) = false

-- The loop that looks at the result of each poll: how many polls it makes, and `err` behind it.
pub polls_made : List ℤ → ℕ
polls_made [] = 0
polls_made (r ∷ rs) = if ltb_int r (pos 0) then 1 else suc (polls_made rs)

pub err_after : ℤ → List ℤ → ℤ
err_after e [] = e
err_after e (r ∷ rs) =
    if is_interrupted r then pos 0 else if ltb_int r (pos 0) then r else err_after r rs

abbrev pub poll_checked : Answers → Frame → Flow
poll_checked w f = going (record f {
  err = err_after f.err w.polls;
  calls = replicate (polls_made w.polls) poll ++ f.calls;
})

-- `free(p)` of a pointer that may be NULL, which the callee ignores, and `if (fd >= 0) close(fd)`.
abbrev pub release_held : Resource → Frame → Frame
release_held r f = if is_held r f.held then release_now r f else f

-- The exit status and the calls, the latest first.
pub record Outcome : Type 0 where
  pub status : ℕ
  pub calls : List Call

abbrev pub status_of : ℤ → ℕ
status_of e = if is_zero e then 0 else 1

abbrev pub exit : Frame → Outcome
exit f = record { status = status_of f.err; calls = f.calls }

-- The body, then the statements behind the label, then `return err ? 1 : 0;`.
abbrev pub run : (Frame → Flow) → (Frame → Frame) → Outcome
run body behind_label = elim (body (record { held = []; err = pos 0; calls = [] })) [
  | going f ↦ exit (behind_label f)
  | cleanup f ↦ exit (behind_label f)
  | returned f ↦ record { status = 1; calls = f.calls }
]

-- The examples, which both trees have under the same names.
pub data Example : Type 0 where
  kprobe : Example
  kretprobe : Example
  raw_tracepoint : Example
  tracepoint : Example
  fentry_fexit : Example
  xdp : Example
  tc : Example
  socket_filter : Example
  sk_lookup : Example
  cgroup_bpf : Example
  cgroup_device : Example
  cgroup_skb : Example
  cgroup_sock : Example
  cgroup_sock_addr : Example
  cgroup_sockopt : Example
  cgroup_sysctl : Example
  perf_event : Example
  uprobe : Example
  uretprobe : Example
  lsm : Example
