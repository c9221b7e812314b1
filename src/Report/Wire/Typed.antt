-- ===== src/Report/Wire/Typed.antt =====
-- Whatever bytes arrive, the fields that the loader reads of a record are values of their types.
use monsa_ebpf.Base.{
  ℕ, zero, suc, ◌+◌, ◌^◌, ◌≤◌, ◌<◌, ◌≡◌, refl, List, [], ◌∷◌, length, length-drop, take, drop, All,
  ltb, Bool-cases, inl, inr, signed32, signed64, arith,
}
use monsa_ebpf.Report.Layout.{
  CType, u8, u16, u32, u64, s32, s64, chars, int, size, align, gap, end_of, Fits, AllFit, le_value,
  read_value,
}
use monsa_ebpf.Report.Wire.{loads}

abbrev pub IsBytes : List ℕ → Type 0
IsBytes bytes = All (λ b. b < 256) bytes

pub IsBytes-drop : (n : ℕ) (bytes : List ℕ) → IsBytes bytes → IsBytes (drop n bytes)
IsBytes-drop zero bytes h = h
IsBytes-drop (suc n) [] h = tt
IsBytes-drop (suc n) (b ∷ bytes) (p, h) = IsBytes-drop n bytes h

pub IsBytes-take : (n : ℕ) (bytes : List ℕ) → IsBytes bytes → IsBytes (take n bytes)
IsBytes-take zero bytes h = tt
IsBytes-take (suc n) [] h = tt
IsBytes-take (suc n) (b ∷ bytes) (p, h) = (p, IsBytes-take n bytes h)

pub length-take : (n : ℕ) (bytes : List ℕ) → n ≤ length bytes → length (take n bytes) ≡ n
length-take zero bytes h = refl
length-take (suc n) [] h = absurd (omega arith)
length-take (suc n) (b ∷ bytes) h = omega (arith, length-take n bytes (omega arith))

pub le_value-lt :
    (n : ℕ) (bytes : List ℕ) → length bytes ≡ n → IsBytes bytes → le_value bytes < 256 ^ n
unfolding le_value
le_value-lt zero [] e h = omega arith
le_value-lt zero (b ∷ bytes) e h = absurd (omega (arith, e))
le_value-lt (suc n) [] e h = absurd (omega (arith, e))
le_value-lt (suc n) (b ∷ bytes) e (p, h) = omega (arith, le_value-lt n bytes (omega (arith, e)) h)

signed32-Fits : (n : ℕ) → n < 2 ^ 32 → Fits s32 (int (signed32 n))
unfolding signed32
signed32-Fits n h = elim (Bool-cases (ltb n (2 ^ 31))) [
  | inl e ↦ rw e (ground arith)
  | inr e ↦ rw e (ground arith)
]

signed64-Fits : (n : ℕ) → n < 2 ^ 64 → Fits s64 (int (signed64 n))
unfolding signed64
signed64-Fits n h = elim (Bool-cases (ltb n (2 ^ 63))) [
  | inl e ↦ rw e (ground arith)
  | inr e ↦ rw e (ground arith)
]

read_value-Fits :
    (t : CType) (bytes : List ℕ)
    → length bytes ≡ size t
    → IsBytes bytes
    → Fits t (read_value t bytes)
unfolding read_value
read_value-Fits u8 bytes e h = le_value-lt 1 bytes e h
read_value-Fits u16 bytes e h = le_value-lt 2 bytes e h
read_value-Fits u32 bytes e h = le_value-lt 4 bytes e h
read_value-Fits u64 bytes e h = le_value-lt 8 bytes e h
read_value-Fits s32 bytes e h = signed32-Fits (le_value bytes) (le_value-lt 4 bytes e h)
read_value-Fits s64 bytes e h = signed64-Fits (le_value bytes) (le_value-lt 8 bytes e h)
read_value-Fits (chars n) bytes e h = e

-- A type that starts at an offset ends behind it and its padding.
pub end_of-le : (cur : ℕ) (ts : List CType) → cur ≤ end_of cur ts
unfolding end_of
end_of-le cur [] = omega arith
end_of-le cur (t ∷ ts) = omega (arith, end_of-le (cur + gap cur (align t) + size t) ts)

pub loads-AllFit :
    (cur : ℕ) (ts : List CType) (bytes : List ℕ)
    → IsBytes bytes
    → end_of cur ts ≤ cur + length bytes
    → AllFit ts (loads cur ts bytes)
unfolding loads end_of
loads-AllFit cur [] bytes h long = tt
loads-AllFit cur (t ∷ ts) bytes h long =
    let pad = gap cur (align t) in
    let here = drop pad bytes in
    let next = cur + pad + size t in
    let reach = end_of-le next ts in
    let left = length-drop pad bytes in
    (
      read_value-Fits t (take (size t) here) (length-take (size t) here (omega arith))
          (IsBytes-take (size t) here (IsBytes-drop pad bytes h)),
      loads-AllFit next ts (drop (size t) here)
          (IsBytes-drop (size t) here (IsBytes-drop pad bytes h))
          (omega (arith, length-drop (size t) here)),
    )
