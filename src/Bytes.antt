-- ===== src/Bytes.antt =====
-- Bytes, texts and addresses: the standard library's `to_be_bytes`, `from_be_bytes`, `Ipv4Addr` and
-- `str` as the source uses them. A `u8`, `u16` or `u32` is a number below its modulus, a text is the
-- list of its UTF-8 bytes.
use ndhcpd.Common.{
  ℕ, ◌+◌, ◌*◌, ◌/◌, ◌%◌, ◌^◌, ◌<◌, ◌≡◌, refl, Bool, true, false, ◌&&◌, List, [], ◌∷◌, map, arith,
  leb, ◌==◌, ==_iff, if◌then◌else◌, All, ◌≢◌, ◌++◌,
}

abbrev pub IsByte : ℕ → Type 0
IsByte b = b < 256

abbrev pub IsU16 : ℕ → Type 0
IsU16 n = n < 2 ^ 16

abbrev pub IsU32 : ℕ → Type 0
IsU32 n = n < 2 ^ 32

-- `to_be_bytes`, and `octets` of an address.
abbrev pub be16 : ℕ → List ℕ
be16 n = (n / 256 % 256) ∷ (n % 256) ∷ []

abbrev pub be32 : ℕ → List ℕ
be32 n = (n / 2 ^ 24 % 256) ∷ (n / 2 ^ 16 % 256) ∷ (n / 2 ^ 8 % 256) ∷ (n % 256) ∷ []

-- `from_be_bytes`.
abbrev pub from_be16 : ℕ → ℕ → ℕ
from_be16 a b = a * 256 + b

abbrev pub from_be32 : ℕ → ℕ → ℕ → ℕ → ℕ
from_be32 a b c d = a * 2 ^ 24 + b * 2 ^ 16 + c * 2 ^ 8 + d

-- `Ipv4Addr` by its value as a `u32`; `u32::from` and `Ipv4Addr::from` are the identity.
abbrev pub Ipv4Addr : Type 0
Ipv4Addr = ℕ

-- `Ipv4Addr::new(a, b, c, d)`.
abbrev pub ipv4 : ℕ → ℕ → ℕ → ℕ → Ipv4Addr
ipv4 a b c d = from_be32 a b c d

-- `Ipv4Addr::UNSPECIFIED` and `Ipv4Addr::BROADCAST`.
abbrev pub unspecified : Ipv4Addr
unspecified = 0

abbrev pub broadcast : Ipv4Addr
broadcast = 0xffff_ffff

abbrev pub Text : Type 0
Text = List ℕ

-- `==` on `String`.
unfoldable pub text_eq : Text → Text → Bool
text_eq [] [] = true
text_eq [] (y ∷ ys) = false
text_eq (x ∷ xs) [] = false
text_eq (x ∷ xs) (y ∷ ys) = x == y && text_eq xs ys

-- `to_lowercase` on ASCII letters; bytes of other characters are left alone.
abbrev pub lower_byte : ℕ → ℕ
lower_byte b = if leb b'A' b && leb b b'Z' then b + 32 else b

unfoldable pub to_lowercase : Text → Text
to_lowercase = map lower_byte

pub text_eq→eq : (s t : Text) → text_eq s t ≡ true → s ≡ t
unfolding text_eq
text_eq→eq [] [] h = refl
text_eq→eq [] (y ∷ ys) h = cc
text_eq→eq (x ∷ xs) [] h = cc
text_eq→eq (x ∷ xs) (y ∷ ys) h = ground (arith, text_eq→eq xs ys)

pub text_eq_refl : (s : Text) → text_eq s s ≡ true
unfolding text_eq
text_eq_refl [] = refl
text_eq_refl (x ∷ xs) = ground (arith, text_eq_refl xs)

pub from_be16-be16 : (n : ℕ) → IsU16 n → from_be16 (n / 256 % 256) (n % 256) ≡ n
from_be16-be16 n h = omega arith

pub from_be32-be32 :
    (n : ℕ)
    → IsU32 n
    → from_be32 (n / 2 ^ 24 % 256) (n / 2 ^ 16 % 256) (n / 2 ^ 8 % 256) (n % 256) ≡ n
from_be32-be32 n h = omega arith

-- `s.split(sep).collect()`: there is always a first part.
unfoldable pub split : ℕ → Text → Text × List Text
split sep [] = ([], [])
split sep (c ∷ cs) =
    let (part, rest) = split sep cs in if c == sep then ([], part ∷ rest) else (c ∷ part, rest)

-- A text without the separator is one part, and so is what stands before the first separator.
pub split-free : (sep : ℕ) (t : Text) → All (λ c. c ≢ sep) t → split sep t ≡ (t, [])
unfolding split
split-free sep [] h = refl
split-free sep (c ∷ t) (h, hs) =
    let other : (c == sep) ≡ false = ground (arith, h) in rw (split-free sep t hs, other)

pub split-first :
    (sep : ℕ) (t rest : Text)
    → All (λ c. c ≢ sep) t
    → split sep (t ++ (sep ∷ rest)) ≡ (t, (split sep rest).0 ∷ (split sep rest).1)
unfolding split
split-first sep [] rest h = let same : (sep == sep) ≡ true = (==_iff _ _).1 refl in rw same
split-first sep (c ∷ t) rest (h, hs) =
    let other : (c == sep) ≡ false = ground (arith, h) in rw (split-first sep t rest hs, other)

-- `join(",")` and the like.
unfoldable pub join : ℕ → List Text → Text
join sep [] = []
join sep (t ∷ []) = t
join sep (t ∷ u ∷ ts) = t ++ (sep ∷ join sep (u ∷ ts))

-- Parts without the separator are found again.
pub split-join :
    (sep : ℕ) (t : Text) (ts : List Text)
    → All (All (λ c. c ≢ sep)) (t ∷ ts)
    → split sep (join sep (t ∷ ts)) ≡ (t, ts)
unfolding join
split-join sep t [] (h, hs) = split-free sep t h
split-join sep t (u ∷ ts) (h, hs) =
    rw (split-first sep t (join sep (u ∷ ts)) h, split-join sep u ts hs) refl
