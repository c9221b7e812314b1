-- ===== src/Report/Maps/Walk.antt =====
-- The walk over a map's keys ends, and what it visits.
use monsa_ebpf.Base.{
  ℕ, zero, suc, ◌≤◌, ◌<◌, ◌≡◌, refl, ◌∙◌, ap, sym, List, [], ◌∷◌, ◌++◌, append_assoc, length,
  length-append, Option, none, some, if◌then◌else◌, ◌==◌, Bool-cases, Option-cases, inl, inr, arith,
}
use monsa_ebpf.Report.Maps.{walk}

abbrev pub head : List ℕ → Option ℕ
head [] = none
head (k ∷ ks) = some k

-- The keys behind a key, if it is among them.
unfoldable pub behind_key : ℕ → List ℕ → Option (List ℕ)
behind_key k [] = none
behind_key k (j ∷ ks) = if j == k then some ks else behind_key k ks

-- `bpf_map_get_next_key` on a hash map that does not change, with its keys in the order of its
-- buckets: the key behind a key that is there, and the first key for one that is not.
pub record IsOrder (next : ℕ → Option ℕ) (keys : List ℕ) : Type 0 where
  pub behind :
      (before : List ℕ) (k : ℕ) (after : List ℕ) → keys ≡ before ++ k ∷ after → next k ≡ head after
  pub absent : (k : ℕ) → behind_key k keys ≡ none → next k ≡ head keys

abbrev pub concat_map : {L : Type 0} → (ℕ → List L) → List ℕ → List L
concat_map visit [] = []
concat_map visit (k ∷ ks) = visit k ++ concat_map visit ks

-- What a walk from key 0 comes to: everything, unless 0 is itself a key.
unfoldable pub reached : List ℕ → List ℕ
unfolding behind_key
reached keys = elim (behind_key 0 keys) [ none ↦ keys | some after ↦ after ]

behind_key-split :
    (k : ℕ) (keys after : List ℕ)
    → behind_key k keys ≡ some after
    → (before : List ℕ) × (keys ≡ before ++ k ∷ after)
unfolding behind_key
behind_key-split k [] after e = cc
behind_key-split k (j ∷ keys) after e = elim (Bool-cases (j == k)) [
  | inl same ↦ ([], ground arith)
  | inr other ↦
      let (before, split) = behind_key-split k keys after (ground arith) in
      (j ∷ before, ap (λ (ks : List ℕ). j ∷ ks) split)
]

length-split :
    (keys before after : List ℕ) (k : ℕ) → keys ≡ before ++ k ∷ after → length after ≤ length keys
length-split keys before after k e = omega (arith, ap length e, length-append before (k ∷ after))

module _ {L : Type 0} (next : ℕ → Option ℕ) (visit : ℕ → List L) (keys : List ℕ)
    (order : IsOrder next keys) where
  walk_from :
      (before : List ℕ) (k : ℕ) (after : List ℕ) (fuel : ℕ)
      → keys ≡ before ++ k ∷ after
      → length after < fuel
      → walk next visit fuel k ≡ some (concat_map visit after)
  unfolding walk
  walk_from before k after zero e h = absurd (omega arith)
  walk_from before k [] (suc fuel) e h = rw (order.behind before k [] e, walk) refl
  walk_from before k (j ∷ after) (suc fuel) e h =
      let rest =
        walk_from (before ++ k ∷ []) j after fuel
          (e ∙ sym (append_assoc before (k ∷ []) (j ∷ after))) (omega arith) in
      rw (order.behind before k (j ∷ after) e, walk) (rw rest refl)

  walk_first :
      (ks : List ℕ) (fuel : ℕ)
      → keys ≡ ks
      → length ks < fuel
      → next 0 ≡ head ks
      → walk next visit fuel 0 ≡ some (concat_map visit ks)
  unfolding walk
  walk_first ks zero e h first = absurd (omega arith)
  walk_first [] (suc fuel) e h first = rw (first, walk) refl
  walk_first (j ∷ ks) (suc fuel) e h first =
      let rest = walk_from [] j ks fuel e (omega arith) in rw (first, walk) (rw rest refl)

  -- On a map that does not change, with fuel for one round more than it has keys, the walk from key
  -- 0 ends: it visits all keys once, in the map's order, if 0 is not a key, and only those behind 0
  -- if it is.
  pub walk-reached :
      (fuel : ℕ)
      → length keys < fuel
      → walk next visit fuel 0 ≡ some (concat_map visit (reached keys))
  unfolding reached
  walk-reached fuel h = elim (Option-cases (behind_key 0 keys)) [
    | inl out ↦ rw (out, reached) (walk_first keys fuel refl h (order.absent 0 out))
    | inr (after, there) ↦
        let (before, split) = behind_key-split 0 keys after there in
        rw (there, reached)
          (walk_from before 0 after fuel split
            (omega (arith, length-split keys before after 0 split)))
  ]
