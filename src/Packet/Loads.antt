-- ===== src/Packet/Loads.antt =====
-- Reads within the bytes of a frame do not fault.
use monsa_ebpf.Base.{ℕ, ◌+◌, ◌*◌, ◌^◌, ◌<◌, ◌≤◌, ◌≡◌, ◌≢◌, List, arith, length}
use monsa_ebpf.Base.{get_elem?-total, ltb, ◌%◌, Bool, true, false, refl, if◌then◌else◌}
use monsa_ebpf.Packet.{ihl, Run, fault, stop, done, ◌>>=◌, ◌>>◌, stop_if, load8, load16, load32}

module _ (frame : List ℕ) (p : ℕ) where
  pub load8_safe : p < length frame → (v : ℕ) × (load8 frame p ≡ done v)
  unfolding load8
  load8_safe h = let (v, k) = get_elem?-total frame p h in (v, ground arith)

module _ (frame : List ℕ) (p : ℕ) where
  pub load16_safe : p + 2 ≤ length frame → (v : ℕ) × (load16 frame p ≡ done v)
  unfolding load16
  load16_safe h =
      let (a, k) = load8_safe frame p (omega arith) in
      let (b, l) = load8_safe frame (p + 1) (omega arith) in (a + 256 * b, rw (k, l))

module _ (frame : List ℕ) (p : ℕ) where
  pub load32_safe : p + 4 ≤ length frame → (v : ℕ) × (load32 frame p ≡ done v)
  unfolding load32
  load32_safe h =
      let (a, k) = load16_safe frame p (omega arith) in
      let (b, l) = load16_safe frame (p + 2) (omega arith) in (a + 2 ^ 16 * b, rw (k, l))

-- Rules for code that reads in bounds.
module _ {B : Type 0} where
  pub done_safe : (b : B) → done b ≢ fault
  done_safe b e = cc

  pub stop_if_safe :
      (test : Bool) (k : Run B) → (test ≡ false → k ≢ fault) → (stop_if test >> k) ≢ fault
  unfolding ◌>>◌ stop_if
  stop_if_safe true k h e = cc
  stop_if_safe false k h e = h refl e

  module _ (frame : List ℕ) (p : ℕ) (f : ℕ → Run B) where
    pub load8_bind : p < length frame → ((v : ℕ) → f v ≢ fault) → (load8 frame p >>= f) ≢ fault
    unfolding ◌>>=◌
    load8_bind h rest e = let (v, k) = load8_safe frame p h in rest v (rw k at e)

    pub load16_bind :
        p + 2 ≤ length frame → ((v : ℕ) → f v ≢ fault) → (load16 frame p >>= f) ≢ fault
    unfolding ◌>>=◌
    load16_bind h rest e = let (v, k) = load16_safe frame p h in rest v (rw k at e)

    pub load32_bind :
        p + 4 ≤ length frame → ((v : ℕ) → f v ≢ fault) → (load32 frame p >>= f) ≢ fault
    unfolding ◌>>=◌
    load32_bind h rest e = let (v, k) = load32_safe frame p h in rest v (rw k at e)

  pub bind_safe :
      {A : Type 0} (m : Run A) (f : A → Run B)
      → m ≢ fault
      → ((a : A) → f a ≢ fault)
      → (m >>= f) ≢ fault
  unfolding ◌>>=◌
  bind_safe fault f h rest e = h refl
  bind_safe stop f h rest e = cc
  bind_safe (done a) f h rest e = rest a e

  pub if_safe :
      (test : Bool) (x y : Run B)
      → (test ≡ true → x ≢ fault)
      → (test ≡ false → y ≢ fault)
      → (if test then x else y) ≢ fault
  if_safe true x y h k = h refl
  if_safe false x y h k = k refl

  pub ihl_bind :
      (frame : List ℕ) (ip : ℕ) (f : ℕ → Run B)
      → ip < length frame
      → ((words : ℕ) → f words ≢ fault)
      → (ihl frame ip >>= f) ≢ fault
  unfolding ihl
  ihl_bind frame ip f h rest e = let (v, k) = load8_safe frame ip h in rest (v % 16) (rw k at e)

  -- The bounds test of a header of `size` bytes, then its two ports.
  pub ports_bind :
      (frame : List ℕ) (l4 size : ℕ) (f : ℕ → ℕ → Run B)
      → 4 ≤ size
      → ((s d : ℕ) → l4 + size ≤ length frame → f s d ≢ fault)
      → (stop_if (ltb (length frame) (l4 + size))
          >> (load16 frame l4 >>= λ s. load16 frame (l4 + 2) >>= λ d. f s d))
        ≢ fault
  ports_bind frame l4 size f h rest = stop_if_safe _ _ λ t.
      let fits : l4 + size ≤ length frame = ground arith in
      load16_bind frame l4 _ (omega arith)
        λ s. load16_bind frame (l4 + 2) _ (omega arith) λ d. rest s d fits
