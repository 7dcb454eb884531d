-- ===== src/Addr/RoundTrip.antt =====
-- An IPv4 address that is printed is read back, and is free of what separates or surrounds it.
use ndhcpd.Common.{
  ℕ, ◌/◌, ◌%◌, ◌^◌, ◌<◌, ◌≤◌, ◌≡◌, refl, Bool, true, false, Option, none, some, arith, ◌==◌, ==_iff,
  ap, ltb, Bool-cases, All, All-append, All-mono, >>=-eq-some, List, [], ◌∷◌, ◌≢◌, inl, inr,
}
use ndhcpd.Common.Table.{holds_below, holds_below-at}
use ndhcpd.Bytes.{Text, Ipv4Addr, IsU32, split-free, split-first, from_be32-be32}
use ndhcpd.Addr.{decimal, ipv4_to_string, octet, ipv4_of_parts, ipv4_from_string}

-- A digit or a dot: 46 to 57, where 47 is not used.
abbrev pub IsPart : ℕ → Type 0
IsPart c = (46 ≤ c) × (c ≤ 57)

abbrev IsDigit : ℕ → Type 0
IsDigit c = (48 ≤ c) × (c ≤ 57)

decimal-IsDigit : (n : ℕ) → n < 256 → All IsDigit (decimal n)
unfolding decimal
decimal-IsDigit n h = elim (Bool-cases (ltb n 10)) [
  | inl e ↦ rw (e, decimal) ((omega arith, ground (arith, e)), tt)
  | inr e ↦ elim (Bool-cases (ltb n 100)) [
    | inl f ↦
        rw (e, f, decimal) ((omega arith, ground (arith, f)), ((omega arith, omega arith), tt))
    | inr f ↦
        rw (e, f, decimal)
          (
            (omega arith, omega arith),
            ((omega arith, omega arith), ((omega arith, omega arith), tt)),
          )
  ]
]

reads_as : ℕ → Option ℕ → Bool
reads_as n none = false
reads_as n (some v) = v == n

octet_table : holds_below (λ n. reads_as n (octet (decimal n))) 256 ≡ true
unfolding holds_below reads_as octet decimal
octet_table = refl

reads_as-eq : (n : ℕ) (o : Option ℕ) → reads_as n o ≡ true → o ≡ some n
unfolding reads_as
reads_as-eq n none h = cc
reads_as-eq n (some v) h = ap some ((==_iff _ _).0 h)

octet-decimal : (n : ℕ) → n < 256 → octet (decimal n) ≡ some n
octet-decimal n h =
    reads_as-eq n (octet (decimal n))
      (holds_below-at (λ n. reads_as n (octet (decimal n))) 256 n h octet_table)

decimal-no_dot : (n : ℕ) → n < 256 → All (λ c. c ≢ b'.') (decimal n)
decimal-no_dot n h =
    All-mono IsDigit (λ c. c ≢ b'.') (λ c d e. absurd (omega arith)) (decimal n)
      (decimal-IsDigit n h)

decimal-IsPart : (n : ℕ) → n < 256 → All IsPart (decimal n)
decimal-IsPart n h =
    All-mono IsDigit IsPart (λ c d. (omega arith, omega arith)) (decimal n) (decimal-IsDigit n h)

-- A printed address has digits and dots.
pub ipv4_to_string-IsPart : (a : Ipv4Addr) → All IsPart (ipv4_to_string a)
unfolding ipv4_to_string
ipv4_to_string-IsPart a =
    let dot : IsPart b'.' = (omega arith, omega arith) in
    All-append IsPart (decimal (a / 2 ^ 24 % 256)) _
      (decimal-IsPart (a / 2 ^ 24 % 256) (omega arith))
      (
        dot,
        All-append IsPart (decimal (a / 2 ^ 16 % 256)) _
            (decimal-IsPart (a / 2 ^ 16 % 256) (omega arith))
            (
              dot,
              All-append IsPart (decimal (a / 2 ^ 8 % 256)) _
                  (decimal-IsPart (a / 2 ^ 8 % 256) (omega arith))
                  (dot, decimal-IsPart (a % 256) (omega arith)),
            ),
      )

pub ipv4_from_string-ipv4_to_string :
    (a : Ipv4Addr) → IsU32 a → ipv4_from_string (ipv4_to_string a) ≡ some a
unfolding ipv4_from_string ipv4_to_string ipv4_of_parts
ipv4_from_string-ipv4_to_string a h =
    let d0 = decimal-no_dot (a / 2 ^ 24 % 256) (omega arith) in
    let d1 = decimal-no_dot (a / 2 ^ 16 % 256) (omega arith) in
    let d2 = decimal-no_dot (a / 2 ^ 8 % 256) (omega arith) in
    let d3 = decimal-no_dot (a % 256) (omega arith) in
    rw
      (
        split-first b'.' (decimal (a / 2 ^ 24 % 256)) _ d0,
        split-first b'.' (decimal (a / 2 ^ 16 % 256)) _ d1,
        split-first b'.' (decimal (a / 2 ^ 8 % 256)) _ d2,
        split-free b'.' (decimal (a % 256)) d3,
        octet-decimal (a / 2 ^ 24 % 256) (omega arith),
        octet-decimal (a / 2 ^ 16 % 256) (omega arith),
        octet-decimal (a / 2 ^ 8 % 256) (omega arith),
        octet-decimal (a % 256) (omega arith),
        from_be32-be32 a h,
      )
      refl

octet-IsByte : (t : Text) (n : ℕ) → octet t ≡ some n → n < 256
unfolding octet
octet-IsByte [] n h = cc
octet-IsByte (a ∷ []) n h = ground arith
octet-IsByte (a ∷ b ∷ []) n h = ground arith
octet-IsByte (a ∷ b ∷ c ∷ []) n h = ground arith
octet-IsByte (a ∷ b ∷ c ∷ d ∷ t) n h = cc

ipv4_of_parts-IsU32 : (parts : List Text) (a : Ipv4Addr) → ipv4_of_parts parts ≡ some a → IsU32 a
unfolding ipv4_of_parts
ipv4_of_parts-IsU32 [] a h = cc
ipv4_of_parts-IsU32 (p ∷ []) a h = cc
ipv4_of_parts-IsU32 (p ∷ q ∷ []) a h = cc
ipv4_of_parts-IsU32 (p ∷ q ∷ r ∷ []) a h = cc
ipv4_of_parts-IsU32 (p ∷ q ∷ r ∷ s ∷ t ∷ parts) a h = cc
ipv4_of_parts-IsU32 (p ∷ q ∷ r ∷ s ∷ []) a h =
    let (v0, e0, h0) = >>=-eq-some (octet p) _ a h in
    let (v1, e1, h1) = >>=-eq-some (octet q) _ a h0 in
    let (v2, e2, h2) = >>=-eq-some (octet r) _ a h1 in
    let (v3, e3, h3) = >>=-eq-some (octet s) _ a h2 in
    let b0 = octet-IsByte p v0 e0 in
    let b1 = octet-IsByte q v1 e1 in
    let b2 = octet-IsByte r v2 e2 in let b3 = octet-IsByte s v3 e3 in ground arith

-- What is read is an address of 32 bits.
pub ipv4_from_string-IsU32 : (t : Text) (a : Ipv4Addr) → ipv4_from_string t ≡ some a → IsU32 a
unfolding ipv4_from_string
ipv4_from_string-IsU32 t a h = ipv4_of_parts-IsU32 _ a h
