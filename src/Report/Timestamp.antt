-- ===== src/Report/Timestamp.antt =====
-- `format_timestamp` of the kprobe and kretprobe loaders: nanoseconds as seconds and a fraction.
use monsa_ebpf.Base.{
  All-append, All, ℕ, zero, suc, ◌+◌, ◌-◌, ◌*◌, ◌/◌, ◌%◌, ◌^◌, ◌<◌, ◌≤◌, ◌≡◌, refl, ◌∙◌, sym, ap,
  List, [], ◌∷◌, ◌++◌, append_assoc, append-nil, length, take, length-append, replicate,
  if◌then◌else◌, ltb, Bool-cases, inl, inr, true, arith,
}

-- `%llu`: at most 20 digits. The fuel counts digits.
unfoldable pub digits : ℕ → ℕ → List ℕ
digits zero n = []
digits (suc f) n =
    let rest = digits f (n / 10) in (if ltb n 10 then [] else rest) ++ ((48 + n % 10) ∷ [])

unfoldable pub decimal : ℕ → List ℕ
unfolding digits
decimal n = digits 20 n

-- `%09llu`
unfoldable pub padded : ℕ → ℕ → List ℕ
unfolding decimal
padded width n = replicate (width - length (decimal n)) 48 ++ decimal n

-- `snprintf` into a buffer of `len` bytes, of which the last is the NUL.
unfoldable pub format_timestamp : ℕ → ℕ → List ℕ
format_timestamp ts_ns len =
    let sec = ts_ns / 1000000000 in
    let nsec = ts_ns % 1000000000 in take (len - 1) (decimal sec ++ (46 ∷ padded 9 nsec))

-- The number that digits spell in base ten.
pub number : ℕ → List ℕ → ℕ
number v [] = v
number v (c ∷ cs) = number (v * 10 + (c - 48)) cs

-- The characters from '0' to '9'.
abbrev pub IsDigit : ℕ → Type 0
IsDigit c = (48 ≤ c) × (c ≤ 57)

pow10 : (f : ℕ) → 10 ^ suc f ≡ 10 * 10 ^ f
pow10 f = omega arith

number-digits : (f n : ℕ) (xs : List ℕ) → n < 10 ^ f → number 0 (digits f n ++ xs) ≡ number n xs
unfolding digits number
number-digits zero n xs h = let e : n ≡ 0 = omega arith in rw e refl
number-digits (suc f) n xs h = elim (Bool-cases (ltb n 10)) [
  | inl small ↦
      let e : 0 * 10 + (48 + n % 10 - 48) ≡ n = ground arith in
      rw (small, digits, number) (rw e refl)
  | inr big ↦
      let e : n / 10 * 10 + (48 + n % 10 - 48) ≡ n = omega arith in
      let less : n / 10 < 10 ^ f = omega (arith, pow10 f) in
      rw (big, digits, append_assoc)
        (number-digits f (n / 10) ((48 + n % 10) ∷ xs) less ∙ rw e refl)
]

number-zeros : (k : ℕ) (xs : List ℕ) → number 0 (replicate k 48 ++ xs) ≡ number 0 xs
unfolding number
number-zeros zero xs = refl
number-zeros (suc k) xs = number-zeros k xs

-- A number below a power of ten has no more digits than that.
length-digits : (f g n : ℕ) → n < 10 ^ g → 0 < g → length (digits f n) ≤ g
unfolding digits
length-digits zero g n h p = omega arith
length-digits (suc f) zero n h p = absurd (omega arith)
length-digits (suc f) (suc zero) n h p =
    let small : ltb n 10 ≡ true = ground arith in rw (small, digits) (omega arith)
length-digits (suc f) (suc (suc g)) n h p = elim (Bool-cases (ltb n 10)) [
  | inl small ↦ rw (small, digits) (omega arith)
  | inr big ↦
      let less : n / 10 < 10 ^ suc g = omega (arith, pow10 (suc g)) in
      rw (big, digits)
        (omega (
          arith,
          length-append (digits f (n / 10)) ((48 + n % 10) ∷ []),
          length-digits f (suc g) (n / 10) less (omega arith),
        ))
]

take-all : (n : ℕ) (xs : List ℕ) → length xs ≤ n → take n xs ≡ xs
take-all zero [] h = refl
take-all zero (x ∷ xs) h = absurd (omega arith)
take-all (suc n) [] h = refl
take-all (suc n) (x ∷ xs) h = ap (λ (ys : List ℕ). x ∷ ys) (take-all n xs (omega arith))

length-replicate : (n a : ℕ) → length (replicate n a) ≡ n
length-replicate zero a = refl
length-replicate (suc n) a = ap suc (length-replicate n a)

length-padded : (n : ℕ) → n < 1000000000 → length (padded 9 n) ≡ 9
unfolding padded decimal
length-padded n h =
    let few : length (decimal n) ≤ 9 = length-digits 20 9 n h (omega arith) in
    omega (
      arith,
      length-append (replicate (9 - length (decimal n)) 48) (decimal n),
      length-replicate (9 - length (decimal n)) 48,
    )

length-text :
    (ts_ns : ℕ)
    → ts_ns < 2 ^ 64
    → length (decimal (ts_ns / 1000000000) ++ (46 ∷ padded 9 (ts_ns % 1000000000))) ≤ 21
unfolding decimal
length-text ts_ns h =
    let sec = ts_ns / 1000000000 in
    let nsec = ts_ns % 1000000000 in
    let few : length (decimal sec) ≤ 11 = length-digits 20 11 sec (omega arith) (omega arith) in
    omega (
      arith,
      length-append (decimal sec) (46 ∷ padded 9 nsec),
      few,
      length-padded nsec (omega arith),
    )

format_timestamp_eq :
    (ts_ns : ℕ)
    → ts_ns < 2 ^ 64
    → format_timestamp ts_ns 32
      ≡ decimal (ts_ns / 1000000000) ++ (46 ∷ padded 9 (ts_ns % 1000000000))
unfolding format_timestamp
format_timestamp_eq ts_ns h = take-all 31 _ (omega (arith, length-text ts_ns h))

number-decimal : (n : ℕ) → n < 2 ^ 64 → number 0 (decimal n) ≡ n
unfolding decimal number
number-decimal n h = rw (sym (append-nil (digits 20 n))) (number-digits 20 n [] (omega arith))

digits-AllDigits : (f n : ℕ) → All IsDigit (digits f n)
unfolding digits
digits-AllDigits zero n = tt
digits-AllDigits (suc f) n =
    let last : All IsDigit ((48 + n % 10) ∷ []) = ((omega arith, omega arith), tt) in
    elim (Bool-cases (ltb n 10)) [
      | inl small ↦ rw (small, digits) last
      | inr big ↦
          rw (big, digits)
            (All-append IsDigit (digits f (n / 10)) _ (digits-AllDigits f (n / 10)) last)
    ]

zeros-AllDigits : (k : ℕ) → All IsDigit (replicate k 48)
zeros-AllDigits zero = tt
zeros-AllDigits (suc k) = ((omega arith, omega arith), zeros-AllDigits k)

padded-AllDigits : (width n : ℕ) → All IsDigit (padded width n)
unfolding padded decimal
padded-AllDigits width n =
    All-append IsDigit (replicate (width - length (decimal n)) 48) (decimal n) (zeros-AllDigits _)
      (digits-AllDigits 20 n)

length-decimal : (n : ℕ) → 1 ≤ length (decimal n)
unfolding decimal digits
length-decimal n =
    omega (arith, length-append (if ltb n 10 then [] else digits 19 (n / 10)) ((48 + n % 10) ∷ []))

number-padded : (n : ℕ) → n < 2 ^ 64 → number 0 (padded 9 n) ≡ n
unfolding padded decimal number
number-padded n h =
    number-zeros (9 - length (decimal n)) (decimal n)
    ∙ rw (sym (append-nil (decimal n))) (number-digits 20 n [] (omega arith))

-- Every 64-bit time fits the buffer of 32 bytes with its NUL, so nothing of its text is cut off: at
-- least one and at most eleven digits, a dot, and exactly nine digits; the digits before the dot spell
-- the seconds and those behind it the billionths of a second, together the same time.
pub format_timestamp_fits :
    (ts_ns : ℕ)
    → ts_ns < 2 ^ 64
    → (whole : List ℕ) × (fraction : List ℕ) × (format_timestamp ts_ns 32 ≡ whole ++ 46 ∷ fraction)
      × All IsDigit whole
      × All IsDigit fraction
      × (1 ≤ length whole)
      × (length whole ≤ 11)
      × (length fraction ≡ 9)
      × (number 0 whole * 1000000000 + number 0 fraction ≡ ts_ns)
format_timestamp_fits ts_ns h =
    let sec = ts_ns / 1000000000 in
    let nsec = ts_ns % 1000000000 in
    (
      decimal sec,
      padded 9 nsec,
      format_timestamp_eq ts_ns h,
      unfold decimal in digits-AllDigits 20 sec,
      padded-AllDigits 9 nsec,
      length-decimal sec,
      unfold decimal in length-digits 20 11 sec (omega arith) (omega arith),
      length-padded nsec (omega arith),
      rw (number-decimal sec (omega arith), number-padded nsec (omega arith)) (omega arith),
    )
