-- ===== src/Advanced/Tracing/Kretprobe/Classify.antt =====
-- The classification of return values in example_kretprobe.bpf.c.
use monsa_ebpf.Base.{◌<◌, ◌≡◌, ◌⊎◌, inl, inr, arith}
use monsa_ebpf.Base.{ℤ, pos, negsuc, neg, to_s32, dec_lt}
use monsa_ebpf.Advanced.Tracing.Kretprobe.{is_error_retval, error_code_of}

-- The numbers from -4095 to -1.
abbrev pub IsErrno : ℤ → Type 0
IsErrno (pos n) = ⊥
IsErrno (negsuc n) = n < 4095

-- A return value from -4095 to -1 is classified as an error, and its code is its negation, which
-- fits the 32-bit field; any other value is no error and has the code 0.
pub classify :
    (ret : ℤ)
    → ((is_error_retval ret ≡ 1) × IsErrno ret × (error_code_of ret ≡ neg ret))
      ⊎ ((is_error_retval ret ≡ 0) × ¬ (IsErrno ret) × (error_code_of ret ≡ pos 0))
unfolding is_error_retval error_code_of to_s32
classify (pos n) = inr (ground arith, (λ h. h), ground arith)
classify (negsuc n) = elim (dec_lt n 4095) [
  | yes h ↦ inl (ground arith, h, ground arith)
  | no h ↦ inr (ground arith, h, ground arith)
]
