-- ===== src/System.antt =====
-- A loader at work: its loop around `ring_buffer__poll` and its handler, with the programs that run
-- and the signal that arrives in between, one step at a time. The text of the loop that looks at its
-- polls is that of S2-advanced/examples/tracing/kprobe/example_kprobe_user.c, and of the one that
-- does not of S2-advanced/examples/tracing/raw_tracepoint/example_raw_tracepoint_user.c.
pub mod Kept
pub mod Delivery
pub mod Progress
pub mod Liveness
pub mod Stopping
pub mod Exit
pub mod Counters
pub mod Counted
pub mod Session
pub mod Openat
pub mod Ledger
pub mod Burst
use monsa_ebpf.Base.{
  ℕ, zero, suc, ◌+◌, ℤ, pos, negsuc, ltb_int, ◌≡◌, List, [], ◌∷◌, ◌++◌, length, All, Option, none,
  some, Bool, true, false, if◌then◌else◌,
}
use monsa_ebpf.Loader.{is_interrupted}
use monsa_ebpf.Report.Print.{Line}

-- The programs of an example: a run changes their maps; `unread` are the records in the ring that the
-- loader has not been handed, oldest first, and `advance` makes room for the oldest of them.
pub record Programs (E : Type 0) : Type 1 where
  pub Maps : Type 0
  pub Input : Type 0
  pub fire : Input → Maps → Maps
  pub unread : Maps → List E
  pub advance : Maps → Maps

-- A run on an allowed input appends good records, if any; the consumer takes the oldest one.
pub record IsProducer {E : Type 0} (P : Programs E) (Allowed : P.Input → Type 0) (Good : E → Type 0)
    : Type 0 where
  pub unread-fire :
      (i : P.Input) (m : P.Maps)
      → Allowed i
      → (new : List E) × (P.unread (P.fire i m) ≡ P.unread m ++ new) × All Good new
  pub unread-advance :
      (m : P.Maps) (e : E) (rest : List E) → P.unread m ≡ e ∷ rest → P.unread (P.advance m) ≡ rest

-- Where the loader is: before the test of `stop`, in a poll that has handed over a number of records,
-- or behind the loop.
pub data Place : Type 0 where
  looping : Place
  polling : ℕ → Place
  left : Place

-- `handled` are the records handed to the handler, `polls` the results of the polls, both from the
-- oldest on, and `printed` the output.
pub record System (E M : Type 0) : Type 0 where
  pub maps : M
  pub stop : Bool
  pub err : ℤ
  pub place : Place
  pub polls : List ℤ
  pub handled : List E
  pub printed : List Line

-- `err = ring_buffer__poll(...)` and the tests behind it; or the call alone, in a loop that is not
-- checked.
unfoldable pub end_poll : {E M : Type 0} → Bool → ℤ → System E M → System E M
end_poll false r s = record s { place = looping; polls = s.polls ++ r ∷ [] }
end_poll true r s = record s {
  err = if is_interrupted r then pos 0 else r;
  place = if is_interrupted r then left else (if ltb_int r (pos 0) then left else looping);
  polls = s.polls ++ r ∷ [];
}

-- What `ring_buffer__poll` does next: it hands the oldest record to the handler, or returns.
pub data Reply : Type 0 where
  hands_over : Reply
  returns : ℤ → Reply

-- A run of a program, the signal, or a step of the loader; a step in a poll is of libbpf's choice.
pub data Action (I : Type 0) : Type 0 where
  event : I → Action I
  signal : Action I
  turn : Reply → Action I

module _ {E : Type 0} (P : Programs E) (handler : E → List Line) (checked : Bool) where
  -- The handler is called with the oldest record, if there is one.
  unfoldable pub deliver : ℕ → List E → System E P.Maps → System E P.Maps
  deliver n [] s = s
  deliver n (e ∷ rest) s = record s {
    maps = P.advance s.maps;
    place = polling (suc n);
    handled = s.handled ++ e ∷ [];
    printed = s.printed ++ handler e;
  }

  unfoldable pub turn_at : Place → Reply → System E P.Maps → System E P.Maps
  unfolding end_poll deliver
  turn_at looping reply s = record s { place = if s.stop then left else polling 0 }
  turn_at (polling n) hands_over s = deliver n (P.unread s.maps) s
  turn_at (polling n) (returns r) s = end_poll checked r s
  turn_at left reply s = s

  unfoldable pub act : System E P.Maps → Action P.Input → System E P.Maps
  unfolding turn_at
  act s (event i) = record s { maps = P.fire i s.maps }
  act s signal = record s { stop = true }
  act s (turn reply) = turn_at s.place reply s

  unfoldable pub run : List (Action P.Input) → System E P.Maps → System E P.Maps
  unfolding act
  run [] s = s
  run (a ∷ more) s = run more (act s a)

  -- The documented behaviour of `ring_buffer__poll`, with handlers that return zero: it hands over
  -- records while there are any, and then returns how many these were; or its wait fails before, and
  -- it returns a negative number.
  abbrev pub IsPollReply : Place → Reply → List E → Type 0
  IsPollReply looping reply records = Unit
  IsPollReply (polling n) hands_over [] = ⊥
  IsPollReply (polling n) hands_over (e ∷ rest) = Unit
  IsPollReply (polling n) (returns (pos k)) records = (k ≡ n) × (records ≡ [])
  IsPollReply (polling n) (returns (negsuc k)) records = n ≡ 0
  IsPollReply left reply records = Unit

  -- The polls of a schedule do so.
  abbrev pub IsPolled : List (Action P.Input) → System E P.Maps → Type 0
  IsPolled [] s = Unit
  IsPolled (event i ∷ more) s = IsPolled more (act s (event i))
  IsPolled (signal ∷ more) s = IsPolled more (act s signal)
  IsPolled (turn reply ∷ more) s =
      IsPollReply s.place reply (P.unread s.maps) × IsPolled more (act s (turn reply))

-- The loader in front of its loop.
abbrev pub start : {E M : Type 0} → M → System E M
start m = record {
  maps = m;
  stop = false;
  err = pos 0;
  place = looping;
  polls = [];
  handled = [];
  printed = [];
}
