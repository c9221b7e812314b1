-- ===== src/Report/Wire/Stored.antt =====
-- Whatever bytes arrive, each field that the loader reads of a record has the bytes at its offset.
use monsa_ebpf.Base.{
  ◌∙◌, ◌/◌, ◌%◌, ap, ◌*◌, sym, ℕ, zero, suc, ◌+◌, ◌^◌, ◌≤◌, ◌<◌, ◌≡◌, refl, List, [], ◌∷◌, length,
  length-drop, take, drop, none, some, ltb, Bool-cases, ◌⊎◌, inl, inr, signed32, signed64, arith,
}
use monsa_ebpf.Report.Layout.{
  le_bytes, pattern_of, value_bytes, CType, u8, u16, u32, u64, s32, s64, chars, Value, size, align,
  gap, end_of, sizeof, AllFit, le_value, read_value,
}
use monsa_ebpf.Report.Wire.{loads, received}
use monsa_ebpf.Report.Wire.Typed.{
  IsBytes, IsBytes-drop, IsBytes-take, length-take, le_value-lt, end_of-le, loads-AllFit,
}

-- The bytes at an offset of a memory, `n` of them.
abbrev pub bytes_at : List ℕ → ℕ → ℕ → List ℕ
bytes_at bytes offset n = take n (drop offset bytes)

-- A field after the other, each behind its padding: its bytes in the record are those of its value.
abbrev pub IsStored : ℕ → List CType → List Value → List ℕ → Type 0
IsStored cur [] [] bytes = Unit
IsStored cur (t ∷ ts) (v ∷ vs) bytes =
    (bytes_at bytes (cur + gap cur (align t)) (size t) ≡ value_bytes t v)
    × IsStored (cur + gap cur (align t) + size t) ts vs bytes
IsStored cur [] (v ∷ vs) bytes = ⊥
IsStored cur (t ∷ ts) [] bytes = ⊥

le_bytes-le_value :
    (n : ℕ) (bytes : List ℕ)
    → length bytes ≡ n
    → IsBytes bytes
    → le_bytes n (le_value bytes) ≡ bytes
unfolding le_bytes le_value
le_bytes-le_value zero [] e h = refl
le_bytes-le_value zero (b ∷ bytes) e h = absurd (omega (arith, e))
le_bytes-le_value (suc n) [] e h = absurd (omega (arith, e))
le_bytes-le_value (suc n) (b ∷ bytes) e (p, h) =
    let low : (b + 256 * le_value bytes) % 256 ≡ b = omega arith in
    let rest : (b + 256 * le_value bytes) / 256 ≡ le_value bytes = omega arith in
    rw (low, rest, le_bytes-le_value n bytes (omega (arith, e)) h) refl

pattern_of-signed32 : (n : ℕ) → n < 2 ^ 32 → pattern_of (2 ^ 32) (signed32 n) ≡ n
unfolding signed32
pattern_of-signed32 n h = ground arith

pattern_of-signed64 : (n : ℕ) → n < 2 ^ 64 → pattern_of (2 ^ 64) (signed64 n) ≡ n
unfolding signed64
pattern_of-signed64 n h = ground arith

-- What is read of bytes has these bytes.
value_bytes-read_value :
    (t : CType) (bytes : List ℕ)
    → length bytes ≡ size t
    → IsBytes bytes
    → value_bytes t (read_value t bytes) ≡ bytes
unfolding value_bytes read_value
value_bytes-read_value u8 bytes e h = le_bytes-le_value 1 bytes e h
value_bytes-read_value u16 bytes e h = le_bytes-le_value 2 bytes e h
value_bytes-read_value u32 bytes e h = le_bytes-le_value 4 bytes e h
value_bytes-read_value u64 bytes e h = le_bytes-le_value 8 bytes e h
value_bytes-read_value s32 bytes e h =
    ap (le_bytes 4) (pattern_of-signed32 (le_value bytes) (le_value-lt 4 bytes e h))
    ∙ le_bytes-le_value 4 bytes e h
value_bytes-read_value s64 bytes e h =
    ap (le_bytes 8) (pattern_of-signed64 (le_value bytes) (le_value-lt 8 bytes e h))
    ∙ le_bytes-le_value 8 bytes e h
value_bytes-read_value (chars n) bytes e h = refl

drop-nil : (n : ℕ) → drop {A = ℕ} n [] ≡ []
drop-nil zero = refl
drop-nil (suc n) = refl

drop-drop : (m n : ℕ) (bytes : List ℕ) → drop m (drop n bytes) ≡ drop (n + m) bytes
drop-drop m zero bytes = let e : m ≡ 0 + m = omega arith in ap (λ k. drop k bytes) e
drop-drop m (suc n) [] = drop-nil m ∙ sym (drop-nil (suc n + m))
drop-drop m (suc n) (b ∷ bytes) =
    let e : suc (n + m) ≡ suc n + m = omega arith in
    drop-drop m n bytes ∙ ap (λ k. drop k (b ∷ bytes)) e

loads-IsStored :
    (cur : ℕ) (ts : List CType) (bytes : List ℕ)
    → IsBytes bytes
    → end_of cur ts ≤ length bytes
    → IsStored cur ts (loads cur ts (drop cur bytes)) bytes
unfolding loads end_of
loads-IsStored cur [] bytes h long = tt
loads-IsStored cur (t ∷ ts) bytes h long =
    let pad = gap cur (align t) in
    let next = cur + pad + size t in
    let reach = end_of-le next ts in
    let here : drop pad (drop cur bytes) ≡ drop (cur + pad) bytes = drop-drop pad cur bytes in
    let later : drop (size t) (drop (cur + pad) bytes) ≡ drop next bytes =
      drop-drop (size t) (cur + pad) bytes in
    let left = length-drop (cur + pad) bytes in
    rw (here, later)
      (
        sym (
            value_bytes-read_value t (take (size t) (drop (cur + pad) bytes))
              (length-take (size t) (drop (cur + pad) bytes) (omega arith))
              (IsBytes-take (size t) (drop (cur + pad) bytes) (IsBytes-drop (cur + pad) bytes h))),
        loads-IsStored next ts bytes h long,
      )

-- A record that is long enough is read as values of the types of its fields, whose bytes are those at
-- the offsets of the fields; a shorter one is not read.
pub received-IsStored :
    (ts : List CType) (bytes : List ℕ)
    → IsBytes bytes
    → ((length bytes < sizeof ts) × (received ts bytes ≡ none))
      ⊎ ((sizeof ts ≤ length bytes)
          × ((vs : List Value) × AllFit ts vs
              × IsStored 0 ts vs bytes
              × (received ts bytes ≡ some vs)))
unfolding received sizeof
received-IsStored ts bytes h = elim (Bool-cases (ltb (length bytes) (sizeof ts))) [
  | inl short ↦ inl (ground arith, rw short refl)
  | inr long ↦ inr (
    ground arith,
    (
      loads 0 ts bytes,
      loads-AllFit 0 ts bytes h (ground arith),
      loads-IsStored 0 ts bytes h (ground arith),
      rw long refl,
    ),
  )
]
