-- ===== src/Report/Layout.antt =====
-- How a record lies in memory (alignment, padding, little-endian numbers), as the kernel program
-- writes it into the ring and as the loader reads it.
use monsa_ebpf.Base.{
  ℕ, zero, suc, ◌+◌, ◌-◌, ◌*◌, ◌/◌, ◌%◌, ◌^◌, ◌<◌, ◌≡◌, refl, ◌∙◌, ap, max, ℤ, pos, negsuc, List,
  [], ◌∷◌, length, signed32, signed64, arith,
}

pub data CType : Type 0 where
  u8 : CType
  u16 : CType
  u32 : CType
  u64 : CType
  s32 : CType
  s64 : CType
  chars : ℕ → CType

pub data Value : Type 0 where
  num : ℕ → Value
  int : ℤ → Value
  text : List ℕ → Value

-- The value of a field, by its place in the record.
abbrev pub num_at : ℕ → List Value → ℕ
num_at i [] = 0
num_at zero (num n ∷ vs) = n
num_at zero (int z ∷ vs) = 0
num_at zero (text b ∷ vs) = 0
num_at (suc i) (v ∷ vs) = num_at i vs

abbrev pub int_at : ℕ → List Value → ℤ
int_at i [] = pos 0
int_at zero (num n ∷ vs) = pos 0
int_at zero (int z ∷ vs) = z
int_at zero (text b ∷ vs) = pos 0
int_at (suc i) (v ∷ vs) = int_at i vs

abbrev pub text_at : ℕ → List Value → List ℕ
text_at i [] = []
text_at zero (num n ∷ vs) = []
text_at zero (int z ∷ vs) = []
text_at zero (text b ∷ vs) = b
text_at (suc i) (v ∷ vs) = text_at i vs

abbrev pub size : CType → ℕ
size u8 = 1
size u16 = 2
size u32 = 4
size u64 = 8
size s32 = 4
size s64 = 8
size (chars n) = n

abbrev pub align : CType → ℕ
align u8 = 1
align u16 = 2
align u32 = 4
align u64 = 8
align s32 = 4
align s64 = 8
align (chars n) = 1

-- The padding before a field at an offset.
unfoldable pub gap : ℕ → ℕ → ℕ
gap cur alignment = (alignment - cur % alignment) % alignment

unfoldable pub end_of : ℕ → List CType → ℕ
end_of cur [] = cur
end_of cur (t ∷ ts) = end_of (cur + gap cur (align t) + size t) ts

abbrev pub max_align : List CType → ℕ
max_align [] = 1
max_align (t ∷ ts) = max (align t) (max_align ts)

unfoldable pub sizeof : List CType → ℕ
unfolding end_of gap
sizeof ts = end_of 0 ts + gap (end_of 0 ts) (max_align ts)

unfoldable pub le_bytes : ℕ → ℕ → List ℕ
le_bytes zero n = []
le_bytes (suc k) n = n % 256 ∷ le_bytes k (n / 256)

unfoldable pub le_value : List ℕ → ℕ
le_value [] = 0
le_value (b ∷ bs) = b + 256 * le_value bs

-- The pattern of a signed number among `m` values.
abbrev pub pattern_of : ℕ → ℤ → ℕ
pattern_of m (pos n) = n
pattern_of m (negsuc n) = m - 1 - n

-- A value that is of the type; a number in its range.
abbrev pub Fits : CType → Value → Type 0
Fits u8 (num n) = n < 256 ^ 1
Fits u16 (num n) = n < 256 ^ 2
Fits u32 (num n) = n < 256 ^ 4
Fits u64 (num n) = n < 256 ^ 8
Fits s32 (int (pos n)) = n < 2 ^ 31
Fits s32 (int (negsuc n)) = n < 2 ^ 31
Fits s64 (int (pos n)) = n < 2 ^ 63
Fits s64 (int (negsuc n)) = n < 2 ^ 63
Fits (chars n) (text b) = length b ≡ n
Fits t v = ⊥

abbrev pub AllFit : List CType → List Value → Type 0
AllFit [] [] = Unit
AllFit (t ∷ ts) (v ∷ vs) = Fits t v × AllFit ts vs
AllFit ts vs = ⊥

unfoldable pub value_bytes : CType → Value → List ℕ
unfolding le_bytes
value_bytes t (num n) = le_bytes (size t) n
value_bytes t (int z) = le_bytes (size t) (pattern_of (256 ^ size t) z)
value_bytes t (text b) = b

unfoldable pub read_value : CType → List ℕ → Value
unfolding le_value signed32 signed64
read_value u8 b = num (le_value b)
read_value u16 b = num (le_value b)
read_value u32 b = num (le_value b)
read_value u64 b = num (le_value b)
read_value s32 b = int (signed32 (le_value b))
read_value s64 b = int (signed64 (le_value b))
read_value (chars n) b = text b

le_value-le_bytes : (k n : ℕ) → n < 256 ^ k → le_value (le_bytes k n) ≡ n
unfolding le_bytes le_value
le_value-le_bytes zero n h = omega arith
le_value-le_bytes (suc k) n h = omega (arith, le_value-le_bytes k (n / 256) (omega arith))

length-le_bytes : (k n : ℕ) → length (le_bytes k n) ≡ k
unfolding le_bytes
length-le_bytes zero n = refl
length-le_bytes (suc k) n = ap suc (length-le_bytes k (n / 256))

pub length-value_bytes : (t : CType) (v : Value) → Fits t v → length (value_bytes t v) ≡ size t
unfolding value_bytes
length-value_bytes (chars m) (text b) h = h
length-value_bytes (chars m) (num n) h = elim h [ ]
length-value_bytes (chars m) (int n) h = elim h [ ]
length-value_bytes u8 (text b) h = elim h [ ]
length-value_bytes u16 (text b) h = elim h [ ]
length-value_bytes u32 (text b) h = elim h [ ]
length-value_bytes u64 (text b) h = elim h [ ]
length-value_bytes s32 (text b) h = elim h [ ]
length-value_bytes s64 (text b) h = elim h [ ]
length-value_bytes t (num n) h = length-le_bytes (size t) n
length-value_bytes t (int z) h = length-le_bytes (size t) (pattern_of (256 ^ size t) z)

signed32_pos : (n : ℕ) → n < 2 ^ 31 → signed32 n ≡ pos n
unfolding signed32
signed32_pos n h = ground arith

signed32_negsuc : (n : ℕ) → n < 2 ^ 31 → signed32 (2 ^ 32 - 1 - n) ≡ negsuc n
unfolding signed32
signed32_negsuc n h = ground arith

signed64_pos : (n : ℕ) → n < 2 ^ 63 → signed64 n ≡ pos n
unfolding signed64
signed64_pos n h = ground arith

signed64_negsuc : (n : ℕ) → n < 2 ^ 63 → signed64 (2 ^ 64 - 1 - n) ≡ negsuc n
unfolding signed64
signed64_negsuc n h = ground arith

pub read-value_bytes : (t : CType) (v : Value) → Fits t v → read_value t (value_bytes t v) ≡ v
unfolding value_bytes read_value
read-value_bytes (chars m) (text b) h = refl
read-value_bytes (chars m) (num n) h = elim h [ ]
read-value_bytes (chars m) (int n) h = elim h [ ]
read-value_bytes u8 (num n) h = ap num (le_value-le_bytes 1 n h)
read-value_bytes u16 (num n) h = ap num (le_value-le_bytes 2 n h)
read-value_bytes u32 (num n) h = ap num (le_value-le_bytes 4 n h)
read-value_bytes u64 (num n) h = ap num (le_value-le_bytes 8 n h)
read-value_bytes s32 (int (pos n)) h =
    ap int (ap signed32 (le_value-le_bytes 4 n (omega arith)) ∙ signed32_pos n h)
read-value_bytes s32 (int (negsuc n)) h =
    ap int (ap signed32 (le_value-le_bytes 4 (2 ^ 32 - 1 - n) (omega arith)) ∙ signed32_negsuc n h)
read-value_bytes s64 (int (pos n)) h =
    ap int (ap signed64 (le_value-le_bytes 8 n (omega arith)) ∙ signed64_pos n h)
read-value_bytes s64 (int (negsuc n)) h =
    ap int (ap signed64 (le_value-le_bytes 8 (2 ^ 64 - 1 - n) (omega arith)) ∙ signed64_negsuc n h)
read-value_bytes u8 (int n) h = elim h [ ]
read-value_bytes u8 (text b) h = elim h [ ]
read-value_bytes u16 (int n) h = elim h [ ]
read-value_bytes u16 (text b) h = elim h [ ]
read-value_bytes u32 (int n) h = elim h [ ]
read-value_bytes u32 (text b) h = elim h [ ]
read-value_bytes u64 (int n) h = elim h [ ]
read-value_bytes u64 (text b) h = elim h [ ]
read-value_bytes s32 (num n) h = elim h [ ]
read-value_bytes s32 (text b) h = elim h [ ]
read-value_bytes s64 (num n) h = elim h [ ]
read-value_bytes s64 (text b) h = elim h [ ]
