-- ===== src/Proto/Mac.antt =====
-- crates/dhcp-proto/src/mac.rs: hardware addresses, and their text form.
pub mod RoundTrip
use ndhcpd.Common.{
  ℕ, ◌+◌, ◌*◌, ◌/◌, ◌%◌, ◌-◌, ◌&&◌, ◌||◌, Option, none, some, List, [], ◌∷◌, ◌++◌, ltb, leb, ◌==◌,
  ◌>>=◌, if◌then◌else◌,
}
use ndhcpd.Bytes.{split, Text, IsByte}

-- `struct MacAddress([u8; 6])`
pub record MacAddress : Type 0 where
  pub b0 : ℕ
  pub b1 : ℕ
  pub b2 : ℕ
  pub b3 : ℕ
  pub b4 : ℕ
  pub b5 : ℕ

pub record IsMac (m : MacAddress) : Type 0 where
  pub byte0 : IsByte m.b0
  pub byte1 : IsByte m.b1
  pub byte2 : IsByte m.b2
  pub byte3 : IsByte m.b3
  pub byte4 : IsByte m.b4
  pub byte5 : IsByte m.b5

-- `MacAddress::new([a, b, c, d, e, f])`
abbrev pub mac : ℕ → ℕ → ℕ → ℕ → ℕ → ℕ → MacAddress
mac a b c d e f = record { b0 = a; b1 = b; b2 = c; b3 = d; b4 = e; b5 = f }

abbrev pub as_bytes : MacAddress → List ℕ
as_bytes m = m.b0 ∷ m.b1 ∷ m.b2 ∷ m.b3 ∷ m.b4 ∷ m.b5 ∷ []

unfoldable pub from_slice : List ℕ → Option MacAddress
from_slice (a ∷ b ∷ c ∷ d ∷ e ∷ f ∷ rest) = some (mac a b c d e f)
from_slice _ = none

-- A digit of `{:x}`.
unfoldable pub hex_digit : ℕ → ℕ
hex_digit n = if ltb n 10 then b'0' + n else b'a' + n - 10

-- `{:02x}` of a byte.
unfoldable pub hex_byte : ℕ → Text
hex_byte b = hex_digit (b / 16) ∷ hex_digit (b % 16) ∷ []

unfoldable pub to_string : MacAddress → Text
to_string m =
    hex_byte m.b0
    ++ (b':'
        ∷ (hex_byte m.b1
            ++ (b':'
                ∷ (hex_byte m.b2
                    ++ (b':'
                        ∷ (hex_byte m.b3 ++ (b':' ∷ (hex_byte m.b4 ++ (b':' ∷ hex_byte m.b5)))))))))

-- `char::to_digit(16)`
unfoldable pub hex_value : ℕ → Option ℕ
hex_value c =
    if leb b'0' c && leb c b'9'
    then some (c - b'0')
    else if leb b'a' c && leb c b'f'
    then some (c - b'a' + 10)
    else if leb b'A' c && leb c b'F'
    then some (c - b'A' + 10)
    else none

-- The digits of `u8::from_str_radix(_, 16)`: a product or a sum above 255 is an error.
unfoldable pub radix_loop : ℕ → Text → Option ℕ
radix_loop acc [] = some acc
radix_loop acc (c ∷ cs) = elim (hex_value c) [
  | none ↦ none
  | some d ↦ if ltb (acc * 16 + d) 256 then radix_loop (acc * 16 + d) cs else none
]

-- `u8::from_str_radix(s, 16).ok()`: a leading `+` is skipped, no digit is an error.
pub u8_from_str_radix : Text → Option ℕ
u8_from_str_radix [] = none
u8_from_str_radix (c ∷ []) = if c == b'+' || c == b'-' then none else radix_loop 0 (c ∷ [])
u8_from_str_radix (c ∷ d ∷ cs) =
    if c == b'+' then radix_loop 0 (d ∷ cs) else radix_loop 0 (c ∷ d ∷ cs)

pub from_parts : List Text → Option MacAddress
from_parts (p0 ∷ p1 ∷ p2 ∷ p3 ∷ p4 ∷ p5 ∷ []) = do
  a ← u8_from_str_radix p0
  b ← u8_from_str_radix p1
  c ← u8_from_str_radix p2
  d ← u8_from_str_radix p3
  e ← u8_from_str_radix p4
  f ← u8_from_str_radix p5
  some (mac a b c d e f)
from_parts _ = none

pub from_string : Text → Option MacAddress
from_string s = let (part, rest) = split b':' s in from_parts (part ∷ rest)
