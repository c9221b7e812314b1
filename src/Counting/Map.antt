-- ===== src/Counting/Map.antt =====
-- What one counter update does to a hash map.
use monsa_ebpf.Base.{ℕ, ◌≡◌, ◌≢◌, true, false, arith}
use monsa_ebpf.Base.{none, some, add64, if◌then◌else◌, Option-cases, inl, inr}
use monsa_ebpf.Kernel.{HashMap, IsHash, IsLruHash}
use monsa_ebpf.Counting.{hit}

module _ {K : Type 0} (H : HashMap K ℕ) where
  -- A key that is there goes up by one, and its new value is reported.
  pub hit_present :
      (L : IsHash H) (m : H.Map) (k : K) (c : ℕ)
      → H.lookup m k ≡ some c
      → (H.lookup (hit H m k).0 k ≡ some (add64 c 1)) × ((hit H m k).1 ≡ add64 c 1)
  unfolding hit
  hit_present L m k c h =
      ground (arith, L.lookup-store_self m k (add64 c 1) (λ (e : H.lookup m k ≡ none). cc))

  pub hit_absent :
      (L : IsHash H) (m : H.Map) (k : K)
      → H.lookup m k ≡ none
      → (H.lookup (hit H m k).0 k ≡ (if H.admits m k then some 1 else none)) × ((hit H m k).1 ≡ 1)
  unfolding hit
  hit_absent L m k h = ground (arith, L.lookup-update_self m k 1)

  pub hit_other :
      (L : IsHash H) (m : H.Map) (k j : K) → k ≢ j → H.lookup (hit H m k).0 j ≡ H.lookup m j
  unfolding hit
  hit_other L m k j h = elim (Option-cases (H.lookup m k)) [
    | inl e ↦ ground (arith, L.lookup-update_other m k j 1 h)
    | inr (c, e) ↦ ground (arith, L.lookup-store_other m k j (add64 c 1) h)
  ]

  -- What the update reports is what the map then holds, if it admits the key.
  pub hit_stored :
      (L : IsHash H) (m : H.Map) (k : K)
      → H.admits m k ≡ true
      → H.lookup (hit H m k).0 k ≡ some (hit H m k).1
  hit_stored L m k h = elim (Option-cases (H.lookup m k)) [
    | inl e ↦ ground (arith, hit_absent L m k e)
    | inr (c, e) ↦ ground (arith, hit_present L m k c e)
  ]

  -- A key that the map refuses is reported as new each time, and stays out.
  pub hit_refused :
      (L : IsHash H) (m : H.Map) (k : K)
      → H.lookup m k ≡ none
      → H.admits m k ≡ false
      → (H.lookup (hit H m k).0 k ≡ none) × ((hit H m k).1 ≡ 1)
  hit_refused L m k h e = ground (arith, hit_absent L m k h)

  -- An LRU map always holds the key afterwards.
  pub lru_hit :
      (L : IsLruHash H) (m : H.Map) (k : K)
      → H.lookup (hit H m k).0 k ≡ some (elim (H.lookup m k) [ none ↦ 1 | some c ↦ add64 c 1 ])
  unfolding hit
  lru_hit L m k = elim (Option-cases (H.lookup m k)) [
    | inl e ↦ ground (arith, L.lookup-update_self m k 1)
    | inr (c, e) ↦
        ground (arith, L.lookup-store_self m k (add64 c 1) (λ (n : H.lookup m k ≡ none). cc))
  ]
