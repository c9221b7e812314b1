-- ===== src/Counting.antt =====
-- The two blocks that the counting programs of S2-advanced/examples share line by line. The text
-- is that of S2-advanced/examples/tracing/kprobe/example_kprobe.bpf.c: the counter update, and the
-- reservation of a record that is filled, logged and submitted.
pub mod Map
pub mod Trace
pub mod Emit
pub mod Sampling
pub mod Race
use monsa_ebpf.Base.{ℕ, ◌+◌, ◌%◌, Bool, true, false, Option, none, some, List, [], ◌∷◌, ◌++◌}
use monsa_ebpf.Base.{add64, ◌==◌, if◌then◌else◌, foldl}
use monsa_ebpf.Kernel.{HashMap, RingBuf, Line}

-- The maps of one program: a counter map, a ring buffer, and the trace log.
pub record State (M B : Type 0) : Type 0 where
  pub counts : M
  pub events : B
  pub log : List Line

-- The counter of `key` goes up by one; a missing key is inserted with the value one. The second
-- part is `new_count`.
unfoldable pub hit : {K : Type 0} (H : HashMap K ℕ) → H.Map → K → H.Map × ℕ
hit H m key = elim (H.lookup m key) [
  | none ↦ (H.update m key 1, 1)
  | some c ↦ (H.store m key (add64 c 1), add64 c 1)
]

-- Without a free record nothing happens; else it is filled, submitted and logged.
unfoldable pub emit :
    {E M : Type 0} (R : RingBuf E) → (E → E) → (E → List Line) → State M R.Buf → State M R.Buf
emit R fill lines s = elim (R.reserve s.events) [
  | none ↦ s
  | some (b, evt) ↦ record s { events = R.submit b (fill evt); log = s.log ++ lines (fill evt) }
]

-- One event in a hundred is emitted.
unfoldable pub sampled : ℕ → Bool
sampled new_count = new_count % 100 == 0

-- A program that runs once for each input of a list, in order.
unfoldable pub run {ℓ} : {I S : Type ℓ} → (I → S → ℕ × S) → List I → S → S
run program [] s = s
run program (i ∷ is) s = run program is (program i s).1

-- The counter update, then an emission that is handed the new count.
unfoldable pub counted_step :
    {K E : Type 0} (H : HashMap K ℕ) (R : RingBuf E)
    → K
    → (ℕ → E → E)
    → (ℕ → E → List Line)
    → State H.Map R.Buf
    → State H.Map R.Buf
counted_step H R key fill lines s =
    let (counts, new_count) = hit H s.counts key in
    emit R (fill new_count) (lines new_count) (record s { counts = counts })

-- The same with an emission only if the sample test passes.
unfoldable pub sampled_step :
    {K E : Type 0} (H : HashMap K ℕ) (R : RingBuf E)
    → K
    → (ℕ → E → E)
    → (ℕ → E → List Line)
    → State H.Map R.Buf
    → State H.Map R.Buf
sampled_step H R key fill lines s =
    let (counts, new_count) = hit H s.counts key in
    let s' = record s { counts = counts } in
    if sampled new_count then emit R (fill new_count) (lines new_count) s' else s'
