-- ===== src/Report/Wire.antt =====
-- A record through the ring: the program stores its fields, the loader checks the size and loads them.
pub mod Typed
pub mod Stored
use monsa_ebpf.Base.{
  ℕ, zero, suc, ◌+◌, ◌≡◌, refl, ◌∙◌, ap, List, [], ◌∷◌, ◌++◌, append_assoc, length, length-append,
  take, drop, take-append, drop-append, Option, none, some, false, if◌then◌else◌, ltb, arith,
}
use monsa_ebpf.Report.Layout.{
  CType, Value, size, align, gap, end_of, max_align, sizeof, AllFit, value_bytes, read_value,
  length-value_bytes, read-value_bytes,
}

-- Bytes that no store touches keep what the ring held.
pub stale : (ℕ → ℕ) → ℕ → ℕ → List ℕ
stale old cur zero = []
stale old cur (suc n) = old cur ∷ stale old (suc cur) n

-- The bytes of the fields, from an offset on.
unfoldable pub stores : (ℕ → ℕ) → ℕ → List CType → List Value → List ℕ
unfolding stale
stores old cur [] vs = []
stores old cur (t ∷ ts) [] = []
stores old cur (t ∷ ts) (v ∷ vs) =
    stale old cur (gap cur (align t))
    ++ (value_bytes t v ++ stores old (cur + gap cur (align t) + size t) ts vs)

-- The whole record, as `bpf_ringbuf_submit` hands it over.
unfoldable pub submitted : (ℕ → ℕ) → List CType → List Value → List ℕ
unfolding stores stale
submitted old ts vs =
    stores old 0 ts vs ++ stale old (end_of 0 ts) (gap (end_of 0 ts) (max_align ts))

unfoldable pub loads : ℕ → List CType → List ℕ → List Value
loads cur [] bytes = []
loads cur (t ∷ ts) bytes =
    let here = drop (gap cur (align t)) bytes in
    read_value t (take (size t) here)
    ∷ loads (cur + gap cur (align t) + size t) ts (drop (size t) here)

-- `if (data_sz < sizeof(...)) return 0;`, then the fields of `*data`.
unfoldable pub received : List CType → List ℕ → Option (List Value)
unfolding loads sizeof
received ts bytes = if ltb (length bytes) (sizeof ts) then none else some (loads 0 ts bytes)

length-stale : (old : ℕ → ℕ) (cur n : ℕ) → length (stale old cur n) ≡ n
unfolding stale
length-stale old cur zero = refl
length-stale old cur (suc n) = ap suc (length-stale old (suc cur) n)

loads-stores :
    (old : ℕ → ℕ) (cur : ℕ) (ts : List CType) (vs : List Value) (rest : List ℕ)
    → AllFit ts vs
    → loads cur ts (stores old cur ts vs ++ rest) ≡ vs
unfolding stores loads
loads-stores old cur [] [] rest fit = refl
loads-stores old cur [] (v ∷ vs) rest fit = elim fit [ ]
loads-stores old cur (t ∷ ts) [] rest fit = elim fit [ ]
loads-stores old cur (t ∷ ts) (v ∷ vs) rest (h, fit) =
    let pad = stale old cur (gap cur (align t)) in
    let field = value_bytes t v in
    let later = stores old (cur + gap cur (align t) + size t) ts vs ++ rest in
    let split : (pad ++ (field ++ stores old (cur + gap cur (align t) + size t) ts vs)) ++ rest
        ≡ pad ++ (field ++ later) =
      append_assoc pad (field ++ stores old (cur + gap cur (align t) + size t) ts vs) rest
      ∙ ap (λ (xs : List ℕ). pad ++ xs)
          (append_assoc field (stores old (cur + gap cur (align t) + size t) ts vs) rest) in
    let at_field : drop (gap cur (align t)) (pad ++ (field ++ later)) ≡ field ++ later =
      drop-append (gap cur (align t)) pad (field ++ later)
        (length-stale old cur (gap cur (align t))) in
    let long = length-value_bytes t v h in
    rw
      (
        split,
        at_field,
        take-append (size t) field later long,
        drop-append (size t) field later long,
        read-value_bytes t v h,
      )
      (ap (λ (us : List Value). v ∷ us)
        (loads-stores old (cur + gap cur (align t) + size t) ts vs rest fit))

length-stores :
    (old : ℕ → ℕ) (cur : ℕ) (ts : List CType) (vs : List Value)
    → AllFit ts vs
    → cur + length (stores old cur ts vs) ≡ end_of cur ts
unfolding stores end_of
length-stores old cur [] [] fit = omega arith
length-stores old cur [] (v ∷ vs) fit = elim fit [ ]
length-stores old cur (t ∷ ts) [] fit = elim fit [ ]
length-stores old cur (t ∷ ts) (v ∷ vs) (h, fit) =
    let next = cur + gap cur (align t) + size t in
    let pad = stale old cur (gap cur (align t)) in
    let field = value_bytes t v in
    omega (
      arith,
      length-append pad (field ++ stores old next ts vs),
      length-append field (stores old next ts vs),
      length-stale old cur (gap cur (align t)),
      length-value_bytes t v h,
      length-stores old next ts vs fit,
    )

length-submitted :
    (old : ℕ → ℕ) (ts : List CType) (vs : List Value)
    → AllFit ts vs
    → length (submitted old ts vs) ≡ sizeof ts
unfolding submitted sizeof
length-submitted old ts vs fit =
    let tail = gap (end_of 0 ts) (max_align ts) in
    omega (
      arith,
      length-append (stores old 0 ts vs) (stale old (end_of 0 ts) tail),
      length-stores old 0 ts vs fit,
      length-stale old (end_of 0 ts) tail,
    )

big_enough :
    (old : ℕ → ℕ) (ts : List CType) (vs : List Value)
    → AllFit ts vs
    → ltb (length (submitted old ts vs)) (sizeof ts) ≡ false
big_enough old ts vs fit = let e = length-submitted old ts vs fit in rw e (ground arith)

-- A record that a program stores with a layout is received with that layout: the size check passes,
-- and every field holds what was stored, whatever the padding holds.
pub received-submitted :
    (old : ℕ → ℕ) (ts : List CType) (vs : List Value)
    → AllFit ts vs
    → received ts (submitted old ts vs) ≡ some vs
unfolding received submitted
received-submitted old ts vs fit =
    rw (big_enough old ts vs fit) (ap some (loads-stores old 0 ts vs _ fit))
