-- ===== src/Base/Strings.antt =====
-- C strings in fixed buffers of bytes.
use Prim.Native.Nat.{ℕ, zero, suc}
use Prim.Native.Char.{code}
use Prim.Native.String.{String}
use mathlib.Core.List.{List, [], ◌∷◌, ◌++◌}
use monsa_ebpf.Base.Lists.{length, drop}

-- The bytes of a literal, without and with its final NUL.
abbrev pub codes : String → List ℕ
codes String.[] = []
codes (String.◌∷◌ c s) = code c ∷ codes s

abbrev pub c_bytes : String → List ℕ
c_bytes s = codes s ++ 0 ∷ []

-- `__builtin_memcpy(buf, src, n)` with `n` the length of `src`: the rest of `buf` stays.
unfoldable pub memcpy : List ℕ → List ℕ → List ℕ
memcpy buf src = src ++ drop (length src) buf

-- What `%s` prints of a buffer: the bytes before the first NUL.
unfoldable pub c_string : List ℕ → List ℕ
c_string [] = []
c_string (zero ∷ cs) = []
c_string (suc c ∷ cs) = suc c ∷ c_string cs
