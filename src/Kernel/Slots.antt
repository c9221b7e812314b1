-- ===== src/Kernel/Slots.antt =====
-- A ring of a fixed size with its consumer, in memory.
use monsa_ebpf.Base.{
  ℕ, suc, ◌+◌, ◌-◌, ◌<◌, ◌≡◌, refl, Option, none, some, List, [], ◌∷◌, ◌++◌, arith, length, drop,
  ltb, if◌then◌else◌, Bool,
}
use monsa_ebpf.Kernel.{RingBuf, IsRing, IsConsumer, HasRoom}

pub record Slots (E : Type 0) : Type 0 where
  pub items : List E
  pub open_count : ℕ

module _ {E : Type 0} where
  unfoldable pub fill_slot : Slots E → E → Slots E
  fill_slot b e = record { items = b.items ++ e ∷ []; open_count = b.open_count - 1 }

  unfoldable pub drop_oldest : Slots E → Slots E
  drop_oldest b = record b { items = drop 1 b.items }

module _ {E : Type 0} (limit : ℕ) (stale : E) where
  unfoldable pub has_space : Slots E → Bool
  has_space b = ltb (length b.items + b.open_count) limit

  unfoldable pub open_slot : Slots E → Option (Slots E × E)
  unfolding has_space
  open_slot b =
      if has_space b then some (record b { open_count = b.open_count + 1 }, stale) else none

  unfoldable pub copy_slot : Slots E → E → Slots E
  unfolding has_space
  copy_slot b e = if has_space b then record b { items = b.items ++ e ∷ [] } else b

  -- A reservation shows the bytes of `stale`.
  abbrev pub slots_ring : RingBuf E
  slots_ring = record {
    Buf = Slots E;
    reserve = open_slot;
    submit = fill_slot;
    output = copy_slot;
    has_room = has_space;
    events = λ b. b.items;
    pending = λ b. b.open_count;
  }

  open_slot-inv :
      (b : Slots E) {b' : Slots E} {e : E}
      → open_slot b ≡ some (b', e)
      → (b'.items ≡ b.items) × (b'.open_count ≡ suc b.open_count) × (e ≡ stale)
  unfolding open_slot
  open_slot-inv b h = ground arith

  pub stale_of : (b b' : Slots E) (e : E) → open_slot b ≡ some (b', e) → e ≡ stale
  stale_of b b' e h = (open_slot-inv b h).2

  pub slots_ring-IsRing : IsRing slots_ring
  unfolding fill_slot copy_slot
  slots_ring-IsRing = record {
    events-reserve = λ b {b'} {e} h. (open_slot-inv b h).0;
    pending-reserve = λ b {b'} {e} h. (open_slot-inv b h).1;
    events-submit = λ b e. refl;
    pending-submit = λ b e. refl;
    events-output = λ b e. ground arith;
    pending-output = λ b e. ground arith;
  }

  pub slots_ring-IsConsumer : IsConsumer slots_ring drop_oldest
  unfolding drop_oldest
  slots_ring-IsConsumer = record {
    events-consume = λ b e rest h. rw h refl;
    pending-consume = λ b. refl;
  }

  opens :
      (b : Slots E)
      → b.open_count ≡ 0
      → length b.items < limit
      → (b' : Slots E) × (old : E) × (open_slot b ≡ some (b', old))
  unfolding open_slot has_space
  opens b none_open small = (record b { open_count = b.open_count + 1 }, stale, ground arith)

  pub slots_ring-HasRoom : HasRoom slots_ring limit
  slots_ring-HasRoom = record { reserve-succeeds = opens }
