-- ===== src/Loader/Polling.antt =====
-- The loop that looks at what each poll returns: which result decides how the loader exits.
use monsa_ebpf.Base.{
  ℕ, suc, ℤ, pos, negsuc, ltb_int, List, [], ◌∷◌, ◌++◌, length, All, true, false, if◌then◌else◌,
  ◌≡◌, refl, ◌∙◌, arith, String,
}
use monsa_ebpf.Loader.{Answers, polls_made, err_after, is_interrupted, status_of}
use monsa_ebpf.Loader.Advanced.{attach_and_poll_checked}
use monsa_ebpf.Loader.Plan.{summary, is_ready}
use monsa_ebpf.Loader.Plan.Advanced.{attach_and_poll_checked_plan, attach_and_poll_checked-Meets}

abbrev pub AllSucceed : List ℤ → Type 0
AllSucceed polls = All (λ x. ltb_int x (pos 0) ≡ false) polls

err_after-first :
    (e : ℤ) (good : List ℤ) (r : ℤ) (rest : List ℤ)
    → AllSucceed good
    → ltb_int r (pos 0) ≡ true
    → (err_after e (good ++ (r ∷ rest)) ≡ (if is_interrupted r then pos 0 else r))
      × (polls_made (good ++ (r ∷ rest)) ≡ suc (length good))
unfolding err_after polls_made
err_after-first e [] r rest g b = rw b (refl, refl)
err_after-first e (pos m ∷ good) r rest (h, g) b =
    let (err, made) = err_after-first (pos m) good r rest g b in rw h (err, omega (arith, made))
err_after-first e (negsuc m ∷ good) r rest (h, g) b = cc

err_after-last :
    (e : ℤ) (good : List ℤ) (n : ℕ)
    → AllSucceed good
    → (err_after e (good ++ (pos (suc n) ∷ [])) ≡ pos (suc n))
      × (polls_made (good ++ (pos (suc n) ∷ [])) ≡ suc (length good))
unfolding err_after polls_made
err_after-last e [] n g = ground arith
err_after-last e (pos m ∷ good) n (h, g) =
    let (err, made) = err_after-last (pos m) good n g in rw h (err, omega (arith, made))
err_after-last e (negsuc m ∷ good) n (h, g) = cc

pub no_polls : (err_after (pos 0) [] ≡ pos 0) × (polls_made [] ≡ 0)
unfolding err_after polls_made
no_polls = (refl, refl)

-- What a poll returns behind polls that succeeded is `err`, but for an interruption.
pub err_after_snoc :
    (e : ℤ) (rs : List ℤ) (r : ℤ)
    → AllSucceed rs
    → (err_after e (rs ++ r ∷ []) ≡ (if is_interrupted r then pos 0 else r))
      × (polls_made (rs ++ r ∷ []) ≡ length (rs ++ r ∷ []))
unfolding err_after polls_made
err_after_snoc e [] (pos n) h = ground arith
err_after_snoc e [] (negsuc n) h = ground arith
err_after_snoc e (pos m ∷ rs) r (h, g) =
    let (err, made) = err_after_snoc (pos m) rs r g in rw h (err, omega (arith, made))
err_after_snoc e (negsuc m ∷ rs) r (h, g) = cc

status_of_failure :
    (r : ℤ)
    → ltb_int r (pos 0) ≡ true
    → status_of (if is_interrupted r then pos 0 else r) ≡ (if is_interrupted r then 0 else 1)
status_of_failure (pos n) h = absurd (ground arith)
status_of_failure (negsuc n) h = ground arith

module _ (object ring_map : String) (w : Answers)
    (ready : is_ready attach_and_poll_checked_plan w ≡ true) where
  -- A loader that checks its polls, with everything that it needs: the first negative result ends
  -- the loop. Interrupted by a signal the loader exits with 0, by any other error with 1, and nothing
  -- is polled afterwards.
  pub first_failure :
      (good : List ℤ) (r : ℤ) (rest : List ℤ)
      → w.polls ≡ good ++ (r ∷ rest)
      → AllSucceed good
      → ltb_int r (pos 0) ≡ true
      → summary (attach_and_poll_checked object ring_map w) ≡ record {
        status = if is_interrupted r then 0 else 1;
        polls = suc (length good);
        shows = 0;
      }
  first_failure good r rest made g b =
      let (err, count) = err_after-first (pos 0) good r rest g b in
      (attach_and_poll_checked-Meets object ring_map w).1
      ∙ rw (ready, made) (rw (err, count) (rw (status_of_failure r b) refl))

  -- A loader that checks its polls, with everything that it needs: where no poll fails and the one
  -- before the loop is stopped delivered records, the loader exits with 1.
  pub stopped_behind_records :
      (good : List ℤ) (n : ℕ)
      → w.polls ≡ good ++ (pos (suc n) ∷ [])
      → AllSucceed good
      → summary (attach_and_poll_checked object ring_map w)
        ≡ record { status = 1; polls = suc (length good); shows = 0 }
  stopped_behind_records good n made g =
      let (err, count) = err_after-last (pos 0) good n g in
      (attach_and_poll_checked-Meets object ring_map w).1 ∙ rw (ready, made) (rw (err, count) refl)
