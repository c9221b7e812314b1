-- ===== src/Kernel/Memory.antt =====
-- Maps and rings in memory: concrete values for the records of `Kernel`, which show that what the
-- programs rely on can hold, and on which the programs run in tests.
use mathlib.Core.Logic.{ite, if_pos, if_neg}
use monsa_ebpf.Base.{ℕ, suc, ◌+◌, ◌-◌, ◌≡◌, ◌≢◌, refl, ◌∙◌, Bool, true, false}
use monsa_ebpf.Base.{Option, none, some, List, [], ◌∷◌, ◌++◌, arith, length, ltb, if◌then◌else◌}
use monsa_ebpf.Base.{◌⊎◌, inl, inr, Bool-cases}
use monsa_ebpf.Kernel.{HashMap, RingBuf, IsHash, IsLruHash, IsRing}

module _ {K V : Type 0} (eq : Discrete K) where
  unfoldable pub find : List (K × V) → K → Option V
  find [] k = none
  find ((j, v) ∷ m) k = ite (eq j k) (some v) (find m k)

  -- Writes the value of a key that is there.
  unfoldable pub assign : List (K × V) → K → V → List (K × V)
  assign [] k v = []
  assign ((j, w) ∷ m) k v = ite (eq j k) ((j, v) ∷ m) ((j, w) ∷ assign m k v)

  unfoldable pub remove : List (K × V) → K → List (K × V)
  remove [] k = []
  remove ((j, w) ∷ m) k = ite (eq j k) (remove m k) ((j, w) ∷ remove m k)

  -- Room for the key: it is there, or fewer than `cap` entries are.
  unfoldable pub room : ℕ → List (K × V) → K → Bool
  unfolding find
  room cap m k = elim (find m k) [ some _ ↦ true | none ↦ ltb (length m) cap ]

  unfoldable pub put : ℕ → List (K × V) → K → V → List (K × V)
  unfolding room assign find
  put cap m k v =
      if room cap m k then elim (find m k) [ some _ ↦ assign m k v | none ↦ (k, v) ∷ m ] else m

  abbrev pub memory_map : ℕ → HashMap K V
  memory_map cap = record {
    Map = List (K × V);
    lookup = find;
    store = assign;
    update = put cap;
    delete = remove;
    admits = room cap;
  }

  find-assign_self :
      (m : List (K × V)) (k : K) (v : V) → find m k ≢ none → find (assign m k v) k ≡ some v
  unfolding find assign
  find-assign_self [] k v h = absurd (h refl)
  find-assign_self ((j, w) ∷ m) k v h = ground (arith, find-assign_self m k v)

  find-assign_other :
      (m : List (K × V)) (k j : K) (v : V) → k ≢ j → find (assign m k v) j ≡ find m j
  unfolding find assign
  find-assign_other [] k j v h = refl
  find-assign_other ((i, w) ∷ m) k j v h = ground (arith, find-assign_other m k j v)

  find-remove_self : (m : List (K × V)) (k : K) → find (remove m k) k ≡ none
  unfolding find remove
  find-remove_self [] k = refl
  find-remove_self ((i, w) ∷ m) k = ground (arith, find-remove_self m k)

  find-remove_other : (m : List (K × V)) (k j : K) → k ≢ j → find (remove m k) j ≡ find m j
  unfolding find remove
  find-remove_other [] k j h = refl
  find-remove_other ((i, w) ∷ m) k j h = ground (arith, find-remove_other m k j)

  pub find-cons_self : (m : List (K × V)) (k : K) (v : V) → find ((k, v) ∷ m) k ≡ some v
  unfolding find
  find-cons_self m k v = rw (if_pos _ refl)

  find-cons_other : (m : List (K × V)) (k j : K) (v : V) → k ≢ j → find ((k, v) ∷ m) j ≡ find m j
  unfolding find
  find-cons_other m k j v h = rw (if_neg _ h)

  find-put_self :
      (cap : ℕ) (m : List (K × V)) (k : K) (v : V)
      → find (put cap m k v) k ≡ (if room cap m k then some v else find m k)
  unfolding put
  find-put_self cap m k v = ground (arith, find-cons_self m k v, find-assign_self m k v)

  find-put_other :
      (cap : ℕ) (m : List (K × V)) (k j : K) (v : V) → k ≢ j → find (put cap m k v) j ≡ find m j
  unfolding put
  find-put_other cap m k j v h =
      ground (arith, find-cons_other m k j v h, find-assign_other m k j v h)

  room_present : (cap : ℕ) (m : List (K × V)) (k : K) → find m k ≢ none → room cap m k ≡ true
  unfolding room
  room_present cap m k h = ground arith

  pub memory_map-IsHash : (cap : ℕ) → IsHash (memory_map cap)
  memory_map-IsHash cap = record {
    lookup-store_self = find-assign_self;
    lookup-store_other = find-assign_other;
    lookup-update_self = find-put_self cap;
    lookup-update_other = find-put_other cap;
    admits_present = room_present cap;
    lookup-delete_self = find-remove_self;
    lookup-delete_other = find-remove_other;
  }

  -- A cache that evicts all other keys when it is full.
  unfoldable pub put_lru : ℕ → List (K × V) → K → V → List (K × V)
  unfolding put
  put_lru cap m k v = if room cap m k then put cap m k v else (k, v) ∷ []

  abbrev pub memory_lru : ℕ → HashMap K V
  memory_lru cap = record {
    Map = List (K × V);
    lookup = find;
    store = assign;
    update = put_lru cap;
    delete = remove;
    admits = λ m k. true;
  }

  find-put_lru_self :
      (cap : ℕ) (m : List (K × V)) (k : K) (v : V) → find (put_lru cap m k v) k ≡ some v
  unfolding put_lru
  find-put_lru_self cap m k v = ground (arith, find-put_self cap m k v, find-cons_self [] k v)

  lru_room :
      (cap : ℕ) (m : List (K × V)) (k : K) (v : V)
      → room cap m k ≡ true
      → (j : K) → find (put_lru cap m k v) j ≡ find (put cap m k v) j
  unfolding put_lru
  lru_room cap m k v r j = rw r

  lru_full :
      (cap : ℕ) (m : List (K × V)) (k : K) (v : V)
      → room cap m k ≡ false
      → (j : K) → find (put_lru cap m k v) j ≡ find ((k, v) ∷ []) j
  unfolding put_lru
  lru_full cap m k v r j = rw r

  find_nil : (j : K) → find [] j ≡ none
  unfolding find
  find_nil j = refl

  find-put_lru_other :
      (cap : ℕ) (m : List (K × V)) (k j : K) (v : V)
      → k ≢ j
      → (find (put_lru cap m k v) j ≡ find m j) ⊎ (find (put_lru cap m k v) j ≡ none)
  find-put_lru_other cap m k j v h = elim (Bool-cases (room cap m k)) [
    | inl r ↦ inl (lru_room cap m k v r j ∙ find-put_other cap m k j v h)
    | inr r ↦ inr (lru_full cap m k v r j ∙ find-cons_other [] k j v h ∙ find_nil j)
  ]

  pub memory_lru-IsLruHash : (cap : ℕ) → IsLruHash (memory_lru cap)
  memory_lru-IsLruHash cap = record {
    lookup-store_self = find-assign_self;
    lookup-store_other = find-assign_other;
    lookup-update_self = find-put_lru_self cap;
    lookup-update_other = find-put_lru_other cap;
  }

-- A ring that holds `limit` records; a reservation shows the bytes of `stale`.
pub record Ring (E : Type 0) : Type 0 where
  pub items : List E
  pub open_count : ℕ
  pub limit : ℕ
  pub stale : E

module _ {E : Type 0} where
  unfoldable pub has_slot : Ring E → Bool
  has_slot b = ltb (length b.items + b.open_count) b.limit

  unfoldable pub take_slot : Ring E → Option (Ring E × E)
  unfolding has_slot
  take_slot b =
      if has_slot b then some (record b { open_count = b.open_count + 1 }, b.stale) else none

  unfoldable pub commit : Ring E → E → Ring E
  commit b e = record b { items = b.items ++ e ∷ []; open_count = b.open_count - 1 }

  unfoldable pub copy_in : Ring E → E → Ring E
  unfolding has_slot
  copy_in b e = if has_slot b then record b { items = b.items ++ e ∷ [] } else b

abbrev pub memory_ring : (E : Type 0) → RingBuf E
memory_ring E = record {
  Buf = Ring E;
  reserve = take_slot;
  submit = commit;
  output = copy_in;
  has_room = has_slot;
  events = λ b. b.items;
  pending = λ b. b.open_count;
}

take_items :
    {E : Type 0} (b : Ring E) {b' : Ring E} {e : E}
    → take_slot b ≡ some (b', e)
    → b'.items ≡ b.items
unfolding take_slot
take_items b h = ground arith

take_open :
    {E : Type 0} (b : Ring E) {b' : Ring E} {e : E}
    → take_slot b ≡ some (b', e)
    → b'.open_count ≡ suc b.open_count
unfolding take_slot
take_open b h = ground arith

pub memory_ring-IsRing : (E : Type 0) → IsRing (memory_ring E)
unfolding take_slot commit copy_in
memory_ring-IsRing E = record {
  events-reserve = λ b {b'} {e} h. take_items b h;
  pending-reserve = λ b {b'} {e} h. take_open b h;
  events-submit = λ b e. refl;
  pending-submit = λ b e. refl;
  events-output = λ b e. ground arith;
  pending-output = λ b e. ground arith;
}
