-- ===== src/Loader/Links.antt =====
-- The loops of S1-basic's cgroup loaders over an array of links: what is held between them.
use monsa_ebpf.Base.{
  ℕ, suc, ◌<◌, ◌≤◌, ◌≡◌, refl, ◌∙◌, List, [], ◌∷◌, some, true, false, if◌then◌else◌, ◌==◌,
  Bool-cases, inl, inr, arith, String,
}
use monsa_ebpf.Loader.{
  Resource, skeleton, link, acquire, is_held, remove, tag, Answers, Frame, release_now,
}
use monsa_ebpf.Loader.Basic.{attach_links, all_set, release_links}
use monsa_ebpf.Loader.Discipline.{held_after}
use monsa_ebpf.Loader.Plan.{all_granted, polls_in, shows_in}

-- The links of an array, and what is held once those of them are added that the environment grants.
abbrev pub links : ℕ → List String → List Resource
links n [] = []
links n (p ∷ ps) = link n ∷ links (suc n) ps

unfoldable pub with_links : Answers → ℕ → List String → List Resource → List Resource
with_links w n [] held = held
with_links w n (p ∷ ps) held =
    with_links w (suc n) ps (if w.grants (link n) then link n ∷ held else held)

pub link-ne : (k n : ℕ) → k < n → (tag (link k) == tag (link n)) ≡ false
link-ne k n h = ground arith

pub link-eq : (n : ℕ) → (tag (link n) == tag (link n)) ≡ true
link-eq n = ground arith

pub object-ne-link : (n : ℕ) → (tag skeleton == tag (link n)) ≡ false
object-ne-link n = ground arith

pub is_held-with_links :
    (w : Answers) (k n : ℕ) (ps : List String) (held : List Resource)
    → k < n
    → is_held (link k) (with_links w n ps held) ≡ is_held (link k) held
unfolding with_links
is_held-with_links w k n [] held h = refl
is_held-with_links w k n (p ∷ ps) held h = elim (Bool-cases (w.grants (link n))) [
  | inl e ↦
      rw e
        (is_held-with_links w k (suc n) ps (link n ∷ held) (omega arith) ∙ rw (link-ne k n h) refl)
  | inr e ↦ rw e (is_held-with_links w k (suc n) ps held (omega arith))
]

pub remove-with_links :
    (w : Answers) (k n : ℕ) (ps : List String) (held : List Resource)
    → k < n
    → remove (link k) (with_links w n ps held) ≡ with_links w n ps (remove (link k) held)
unfolding with_links
remove-with_links w k n [] held h = refl
remove-with_links w k n (p ∷ ps) held h = elim (Bool-cases (w.grants (link n))) [
  | inl e ↦
      rw e
        (remove-with_links w k (suc n) ps (link n ∷ held) (omega arith) ∙ rw (link-ne k n h) refl)
  | inr e ↦ rw e (remove-with_links w k (suc n) ps held (omega arith))
]

-- No link from the `n`th on is held.
abbrev pub IsFresh : ℕ → List Resource → Type 0
IsFresh n held = (k : ℕ) → n ≤ k → is_held (link k) held ≡ false

IsFresh-link : (n : ℕ) (held : List Resource) → IsFresh n held → IsFresh (suc n) (link n ∷ held)
IsFresh-link n held fresh k h =
    let e : (tag (link k) == tag (link n)) ≡ false = ground arith in rw e (fresh k (omega arith))

IsFresh-suc : (n : ℕ) (held : List Resource) → IsFresh n held → IsFresh (suc n) held
IsFresh-suc n held fresh k h = fresh k (omega arith)

-- Behind the loop all links are set exactly if all were granted.
pub all_set-with_links :
    (w : Answers) (n : ℕ) (ps : List String) (held : List Resource)
    → IsFresh n held
    → all_set n ps (with_links w n ps held) ≡ all_granted w (links n ps)
unfolding with_links all_set
all_set-with_links w n [] held fresh = refl
all_set-with_links w n (p ∷ ps) held fresh = elim (Bool-cases (w.grants (link n))) [
  | inl e ↦
      rw (e, is_held-with_links w n (suc n) ps (link n ∷ held) (omega arith), link-eq n)
        (all_set-with_links w (suc n) ps (link n ∷ held) (IsFresh-link n held fresh))
  | inr e ↦ rw (e, is_held-with_links w n (suc n) ps held (omega arith), fresh n (omega arith)) refl
]

-- A frame whose calls keep the discipline, and leave held what it says.
abbrev pub IsSound : Frame → Type 0
IsSound f = held_after f.calls ≡ some f.held

pub acquire_link-IsSound :
    (n : ℕ) (p : String) (f : Frame)
    → is_held (link n) f.held ≡ false
    → is_held skeleton f.held ≡ true
    → IsSound f
    → held_after (acquire (link n) p ∷ f.calls) ≡ some (link n ∷ f.held)
acquire_link-IsSound n p f fresh obj sound = rw sound (rw (fresh, obj) refl)

-- What the loop over the array leaves of a frame.
pub attach_links_lem :
    (w : Answers) (n : ℕ) (ps : List String) (f : Frame)
    → IsFresh n f.held
    → is_held skeleton f.held ≡ true
    → IsSound f
    → ((attach_links w n ps f).held ≡ with_links w n ps f.held)
      × ((attach_links w n ps f).err ≡ f.err)
      × IsSound (attach_links w n ps f)
      × (polls_in (attach_links w n ps f).calls ≡ polls_in f.calls)
      × (shows_in (attach_links w n ps f).calls ≡ shows_in f.calls)
unfolding with_links attach_links
attach_links_lem w n [] f fresh obj sound = (refl, refl, sound, refl, refl)
attach_links_lem w n (p ∷ ps) f fresh obj sound = elim (Bool-cases (w.grants (link n))) [
  | inl e ↦
      rw (e, attach_links)
        (attach_links_lem w (suc n) ps
          (record f { held = link n ∷ f.held; calls = acquire (link n) p ∷ f.calls })
          (IsFresh-link n f.held fresh) (rw (object-ne-link n) obj)
          (acquire_link-IsSound n p f (fresh n (omega arith)) obj sound))
  | inr e ↦
      rw (e, attach_links) (attach_links_lem w (suc n) ps f (IsFresh-suc n f.held fresh) obj sound)
]

pub release_link-IsSound :
    (n : ℕ) (f : Frame)
    → is_held (link n) f.held ≡ true
    → IsSound f
    → IsSound (release_now (link n) f)
release_link-IsSound n f held sound =
    let ne : (tag (link n) == tag skeleton) ≡ false = ground arith in rw sound (rw (held, ne) refl)

is_held-with_link :
    (w : Answers) (n : ℕ) (ps : List String) (base : List Resource)
    → is_held (link n) (with_links w (suc n) ps (link n ∷ base)) ≡ true
is_held-with_link w n ps base =
    is_held-with_links w n (suc n) ps (link n ∷ base) (omega arith) ∙ rw (link-eq n) refl

remove-with_link :
    (w : Answers) (n : ℕ) (ps : List String) (base : List Resource)
    → remove (link n) (with_links w (suc n) ps (link n ∷ base)) ≡ with_links w (suc n) ps base
remove-with_link w n ps base =
    remove-with_links w n (suc n) ps (link n ∷ base) (omega arith) ∙ rw (link-eq n) refl

-- What the releases leave, of a frame that holds the links over an object and a directory.
pub release_links_lem :
    (w : Answers) (n : ℕ) (ps : List String) (f : Frame) (base : List Resource)
    → IsFresh n base
    → f.held ≡ with_links w n ps base
    → IsSound f
    → ((release_links n ps f).held ≡ base)
      × ((release_links n ps f).err ≡ f.err)
      × IsSound (release_links n ps f)
      × (polls_in (release_links n ps f).calls ≡ polls_in f.calls)
      × (shows_in (release_links n ps f).calls ≡ shows_in f.calls)
unfolding with_links release_links
release_links_lem w n [] f base fresh eq sound = (eq, refl, sound, refl, refl)
release_links_lem w n (p ∷ ps) f base fresh eq sound = elim (Bool-cases (w.grants (link n))) [
  | inl e ↦
      let before : f.held ≡ with_links w (suc n) ps (link n ∷ base) = eq ∙ rw e refl in
      let set : is_held (link n) f.held ≡ true = rw before (is_held-with_link w n ps base) in
      let after : remove (link n) f.held ≡ with_links w (suc n) ps base =
        rw before (remove-with_link w n ps base) in
      rw (set, release_links)
        (release_links_lem w (suc n) ps (release_now (link n) f) base (IsFresh-suc n base fresh)
          after (release_link-IsSound n f set sound))
  | inr e ↦
      let before : f.held ≡ with_links w (suc n) ps base = eq ∙ rw e refl in
      let unset : is_held (link n) f.held ≡ false =
        rw before (is_held-with_links w n (suc n) ps base (omega arith) ∙ fresh n (omega arith)) in
      rw (unset, release_links)
        (release_links_lem w (suc n) ps f base (IsFresh-suc n base fresh) before sound)
]

pub release_links-none :
    (n : ℕ) (ps : List String) (f : Frame) → IsFresh n f.held → release_links n ps f ≡ f
unfolding release_links
release_links-none n [] f fresh = refl
release_links-none n (p ∷ ps) f fresh =
    rw (fresh n (omega arith), release_links)
      (release_links-none (suc n) ps f (IsFresh-suc n f.held fresh))

pub is_held_object-with_links :
    (w : Answers) (n : ℕ) (ps : List String) (held : List Resource)
    → is_held skeleton held ≡ true
    → is_held skeleton (with_links w n ps held) ≡ true
unfolding with_links
is_held_object-with_links w n [] held h = h
is_held_object-with_links w n (p ∷ ps) held h = elim (Bool-cases (w.grants (link n))) [
  | inl e ↦ rw e (is_held_object-with_links w (suc n) ps (link n ∷ held) (rw (object-ne-link n) h))
  | inr e ↦ rw e (is_held_object-with_links w (suc n) ps held h)
]
