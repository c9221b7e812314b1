-- ===== src/Packet/Frame.antt =====
-- Frames as a sender builds them: an Ethernet header, an IPv4 header with options, and a TCP or UDP
-- header with a payload. The bytes that no program reads are those of a function.
use monsa_ebpf.Base.{ℕ, suc, ◌+◌, ◌/◌, ◌%◌, ◌^◌, ◌<◌, ◌≡◌, ap, ◌∙◌, arith}
use monsa_ebpf.Base.{List, [], ◌∷◌, ◌++◌, length, get_elem?, bswap16, bswap32}
use monsa_ebpf.Packet.{done, load8, load16, load32}

-- Network byte order.
abbrev pub be16 : ℕ → List ℕ → List ℕ
be16 x rest = x / 2 ^ 8 % 256 ∷ x % 256 ∷ rest

abbrev pub be32 : ℕ → List ℕ → List ℕ
be32 x rest = x / 2 ^ 24 % 256 ∷ x / 2 ^ 16 % 256 ∷ x / 2 ^ 8 % 256 ∷ x % 256 ∷ rest

-- The first 34 bytes, for an IPv4 header with `n` words of options.
abbrev pub ipv4_headers : (ℕ → ℕ) → ℕ → ℕ → ℕ → ℕ → List ℕ
ipv4_headers m n protocol saddr daddr =
    m 0
    ∷ m 1
    ∷ m 2
    ∷ m 3
    ∷ m 4
    ∷ m 5
    ∷ m 6
    ∷ m 7
    ∷ m 8
    ∷ m 9
    ∷ m 10
    ∷ m 11
    ∷ be16 0x0800 (
        (64 + (5 + n))
        ∷ m 15
        ∷ m 16
        ∷ m 17
        ∷ m 18
        ∷ m 19
        ∷ m 20
        ∷ m 21
        ∷ m 22
        ∷ protocol
        ∷ m 24
        ∷ m 25
        ∷ be32 saddr (be32 daddr []))

abbrev pub tcp_header : (ℕ → ℕ) → ℕ → ℕ → ℕ → List ℕ → List ℕ
tcp_header m sport dport flags payload = be16 sport (
    be16 dport (
      m 38
      ∷ m 39
      ∷ m 40
      ∷ m 41
      ∷ m 42
      ∷ m 43
      ∷ m 44
      ∷ m 45
      ∷ m 46
      ∷ flags
      ∷ m 48
      ∷ m 49
      ∷ m 50
      ∷ m 51
      ∷ m 52
      ∷ m 53
      ∷ payload))

abbrev pub udp_header : (ℕ → ℕ) → ℕ → ℕ → List ℕ → List ℕ
udp_header m sport dport payload = be16 sport (be16 dport (m 38 ∷ m 39 ∷ m 40 ∷ m 41 ∷ payload))

-- A read behind a prefix is a read of the rest.
get_elem?-append : (xs ys : List ℕ) (i : ℕ) → get_elem? (xs ++ ys) (length xs + i) ≡ get_elem? ys i
get_elem?-append [] ys i = ap (get_elem? ys) (omega arith)
get_elem?-append (x ∷ xs) ys i = ap (get_elem? (x ∷ (xs ++ ys))) shift ∙ get_elem?-append xs ys i
  where
    shift : length (x ∷ xs) + i ≡ suc (length xs + i)
    shift = omega arith

pub load8-append : (xs ys : List ℕ) (p i : ℕ) → p ≡ length xs + i → load8 (xs ++ ys) p ≡ load8 ys i
unfolding load8
load8-append xs ys p i e = rw e (ground (arith, get_elem?-append xs ys i))

pub load16-append :
    (xs ys : List ℕ) (p i : ℕ) → p ≡ length xs + i → load16 (xs ++ ys) p ≡ load16 ys i
unfolding load16
load16-append xs ys p i e =
    rw (load8-append xs ys p i e, load8-append xs ys (p + 1) (i + 1) (omega arith))

module _ (x : ℕ) (rest : List ℕ) where
  pub load16-be16 : x < 2 ^ 16 → load16 (be16 x rest) 0 ≡ done (bswap16 x)
  unfolding load16 bswap16
  load16-be16 h = ap done (omega arith)

  pub load32-be32 : x < 2 ^ 32 → load32 (be32 x rest) 0 ≡ done (bswap32 x)
  unfolding load32 load16 bswap32
  load32-be32 h = ap done (omega arith)
