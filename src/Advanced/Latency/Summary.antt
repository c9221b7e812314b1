-- ===== src/Advanced/Latency/Summary.antt =====
-- What `struct latency_stats` holds after any number of updates.
use monsa_ebpf.Base.{ℕ, ◌+◌, ◌%◌, ◌^◌, ◌<◌, ◌≤◌, ◌≡◌, ◌≢◌, ◌⊎◌, inl, inr, refl, ◌∙◌, arith}
use monsa_ebpf.Base.{none, some, List, [], ◌∷◌, length, All, add64, ltb, ℕ_discrete}
use mathlib.Core.Logic.{ite, if_pos, if_neg}
use monsa_ebpf.Base.{Option-cases, Bool-cases, append-nil, append_assoc, length-append, ◌++◌, true}
use monsa_ebpf.Kernel.{HashMap, IsHash}
use monsa_ebpf.Advanced.Latency.{LatencyStats, first_latency, add_latency, record_latency}

abbrev pub sum : List ℕ → ℕ
sum [] = 0
sum (x ∷ xs) = x + sum xs

abbrev pub Any : (ℕ → Type 0) → List ℕ → Type 0
Any Q [] = ⊥
Any Q (x ∷ xs) = Q x ⊎ Any Q xs

-- The updates of one entry, in order.
unfoldable pub add_all : LatencyStats → List ℕ → LatencyStats
add_all st [] = st
add_all st (l ∷ ls) = add_all (add_latency l st) ls

-- The statistics of a list of latencies: its length and its sum modulo 2 ^ 64, its least and its
-- greatest element.
pub record Summarises (ls : List ℕ) (st : LatencyStats) : Type 0 where
  pub counted : st.count ≡ length ls % 2 ^ 64
  pub summed : st.total_ns ≡ sum ls % 2 ^ 64
  pub least : All (λ l. st.min_ns ≤ l) ls
  pub least_attained : Any (λ l. l ≡ st.min_ns) ls
  pub greatest : All (λ l. l ≤ st.max_ns) ls
  pub greatest_attained : Any (λ l. l ≡ st.max_ns) ls

module _ {Q Q' : ℕ → Type 0} (f : (l : ℕ) → Q l → Q' l) where
  -- A list with one more element at its end.
  All-snoc : (ls : List ℕ) (l : ℕ) → All Q ls → Q' l → All Q' (ls ++ l ∷ [])
  All-snoc [] l all q = (q, tt)
  All-snoc (x ∷ ls) l (p, all) q = (f x p, All-snoc ls l all q)

  Any-snoc_old : (ls : List ℕ) (l : ℕ) → Any Q ls → Any Q' (ls ++ l ∷ [])
  Any-snoc_old [] l h = elim h [ ]
  Any-snoc_old (x ∷ ls) l (inl h) = inl (f x h)
  Any-snoc_old (x ∷ ls) l (inr h) = inr (Any-snoc_old ls l h)

Any-snoc_new : (Q : ℕ → Type 0) (ls : List ℕ) (l : ℕ) → Q l → Any Q (ls ++ l ∷ [])
Any-snoc_new Q [] l q = inl q
Any-snoc_new Q (x ∷ ls) l q = inr (Any-snoc_new Q ls l q)

sum_snoc : (ls : List ℕ) (l : ℕ) → sum (ls ++ l ∷ []) ≡ sum ls + l
sum_snoc [] l = omega arith
sum_snoc (x ∷ ls) l = omega (arith, sum_snoc ls l)

-- One update adds one latency to the summary.
module _ (l : ℕ) (ls : List ℕ) (st : LatencyStats) (v : Summarises ls st) where
  attained_min : Any (λ x. x ≡ (add_latency l st).min_ns) (ls ++ l ∷ [])
  unfolding add_latency
  attained_min = elim (Bool-cases (ltb l st.min_ns)) [
    | inl e ↦ Any-snoc_new _ ls l (rw e)
    | inr e ↦ Any-snoc_old (λ x h. rw e h) ls l v.least_attained
  ]

  attained_max : Any (λ x. x ≡ (add_latency l st).max_ns) (ls ++ l ∷ [])
  unfolding add_latency
  attained_max = elim (Bool-cases (ltb st.max_ns l)) [
    | inl e ↦ Any-snoc_new _ ls l (rw e)
    | inr e ↦ Any-snoc_old (λ x h. rw e h) ls l v.greatest_attained
  ]

  add_latency-Summarises : Summarises (ls ++ l ∷ []) (add_latency l st)
  unfolding add_latency add64
  add_latency-Summarises = record {
    counted = let e = v.counted in omega (arith, length-append ls (l ∷ []));
    summed = let e = v.summed in omega (arith, sum_snoc ls l);
    least = All-snoc (λ x h. ground arith) ls l v.least (ground arith);
    least_attained = attained_min;
    greatest = All-snoc (λ x h. ground arith) ls l v.greatest (ground arith);
    greatest_attained = attained_max;
  }

add_all-Summarises :
    (ls seen : List ℕ) (st : LatencyStats)
    → Summarises seen st
    → Summarises (seen ++ ls) (add_all st ls)
unfolding add_all
add_all-Summarises [] seen st v = rw append-nil v
add_all-Summarises (l ∷ ls) seen st v =
    rw (append_assoc seen (l ∷ []) ls) at (
      add_all-Summarises ls (seen ++ l ∷ []) (add_latency l st)
        (add_latency-Summarises l seen st v))

-- The entry that a first call with a 64-bit latency makes and later calls update has the number and
-- the sum of all its latencies modulo 2 ^ 64, and their least and greatest element.
pub latency_summary :
    (l : ℕ) (ls : List ℕ) → l < 2 ^ 64 → Summarises (l ∷ ls) (add_all (first_latency l) ls)
unfolding first_latency
latency_summary l ls word = add_all-Summarises ls (l ∷ []) _ (record {
  counted = refl;
  summed = omega arith;
  least = (omega arith, tt);
  least_attained = inl refl;
  greatest = (omega arith, tt);
  greatest_attained = inl refl;
})

-- The latencies of one process, among those of all.
unfoldable pub latencies_of : ℕ → List (ℕ × ℕ) → List ℕ
latencies_of pid [] = []
latencies_of pid ((p, l) ∷ calls) =
    ite (ℕ_discrete p pid) (l ∷ latencies_of pid calls) (latencies_of pid calls)

-- The updates of a sequence of calls, each a process and a latency.
unfoldable pub record_all : (P : HashMap ℕ LatencyStats) → List (ℕ × ℕ) → P.Map → P.Map
record_all P [] m = m
record_all P ((pid, l) ∷ calls) m = record_all P calls (record_latency P pid l m)

pub record_all-append :
    (P : HashMap ℕ LatencyStats) (calls more : List (ℕ × ℕ)) (m : P.Map)
    → record_all P (calls ++ more) m ≡ record_all P more (record_all P calls m)
unfolding record_all
record_all-append P [] more m = refl
record_all-append P ((pid, l) ∷ calls) more m = record_all-append P calls more _

module _ (P : HashMap ℕ LatencyStats) (L : IsHash P) where
  pub record_present :
      (pid l : ℕ) (m : P.Map) (st : LatencyStats)
      → P.lookup m pid ≡ some st
      → P.lookup (record_latency P pid l m) pid ≡ some (add_latency l st)
  unfolding record_latency
  record_present pid l m st h =
      ground
        (arith, L.lookup-store_self m pid (add_latency l st) (λ (e : P.lookup m pid ≡ none). cc))

  pub record_other :
      (pid l j : ℕ) (m : P.Map) → pid ≢ j → P.lookup (record_latency P pid l m) j ≡ P.lookup m j
  unfolding record_latency
  record_other pid l j m h = elim (Option-cases (P.lookup m pid)) [
    | inl e ↦ ground (arith, L.lookup-update_other m pid j (first_latency l) h)
    | inr (st, e) ↦ ground (arith, L.lookup-store_other m pid j (add_latency l st) h)
  ]

  record_new :
      (pid l : ℕ) (m : P.Map)
      → P.lookup m pid ≡ none
      → P.admits m pid ≡ true
      → P.lookup (record_latency P pid l m) pid ≡ some (first_latency l)
  unfolding record_latency
  record_new pid l m h room = ground (arith, L.lookup-update_self m pid (first_latency l))

  lookup-record_all :
      (calls : List (ℕ × ℕ)) (m : P.Map) (pid : ℕ) (st : LatencyStats)
      → P.lookup m pid ≡ some st
      → P.lookup (record_all P calls m) pid ≡ some (add_all st (latencies_of pid calls))
  unfolding record_all latencies_of add_all
  lookup-record_all [] m pid st h = h
  lookup-record_all ((p, l) ∷ calls) m pid st h = elim (ℕ_discrete p pid) [
    | yes e ↦
        rw (if_pos _ e)
          (lookup-record_all calls _ pid (add_latency l st) (rw e (record_present pid l m st h)))
    | no n ↦ rw (if_neg _ n) (lookup-record_all calls _ pid st (record_other p l pid m n ∙ h))
  ]

  -- Of a process that is not in the map but admitted by it, a first call with a 64-bit latency and
  -- then any calls of it and of other processes leave an entry that summarises its own latencies:
  -- their number and sum modulo 2 ^ 64, the least and the greatest of them.
  pub record_all-Summarises :
      (calls : List (ℕ × ℕ)) (m : P.Map) (pid l : ℕ)
      → P.lookup m pid ≡ none
      → P.admits m pid ≡ true
      → l < 2 ^ 64
      → (st : LatencyStats) × (P.lookup (record_all P ((pid, l) ∷ calls) m) pid ≡ some st)
        × Summarises (l ∷ latencies_of pid calls) st
  unfolding record_all
  record_all-Summarises calls m pid l absent room word = (
    add_all (first_latency l) (latencies_of pid calls),
    lookup-record_all calls _ pid (first_latency l) (record_new pid l m absent room),
    latency_summary l (latencies_of pid calls) word,
  )
