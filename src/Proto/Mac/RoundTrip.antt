-- ===== src/Proto/Mac/RoundTrip.antt =====
-- `to_string` and `from_string` of crates/dhcp-proto/src/mac.rs against each other.
use ndhcpd.Common.{ℕ, ◌/◌, ◌%◌, ◌<◌, ◌≡◌, false, some, [], ◌∷◌, ◌++◌, arith, ◌==◌}
use ndhcpd.Bytes.{split, Text, IsByte, to_lowercase, lower_byte}
use ndhcpd.Proto.Mac.{
  MacAddress, IsMac, hex_digit, hex_byte, hex_value, radix_loop, u8_from_str_radix, from_parts,
  from_string, to_string,
}

hex_digit-ne-colon : (n : ℕ) → n < 16 → (hex_digit n == b':') ≡ false
unfolding hex_digit
hex_digit-ne-colon n h = ground arith

hex_digit-ne-plus : (n : ℕ) → n < 16 → (hex_digit n == b'+') ≡ false
unfolding hex_digit
hex_digit-ne-plus n h = ground arith

hex_value-hex_digit : (n : ℕ) → n < 16 → hex_value (hex_digit n) ≡ some n
unfolding hex_value hex_digit
hex_value-hex_digit n h = ground arith

lower_byte-hex_digit : (n : ℕ) → n < 16 → lower_byte (hex_digit n) ≡ hex_digit n
unfolding hex_digit
lower_byte-hex_digit n h = ground arith

-- The two digits of a byte read back as that byte.
u8_from_str_radix-hex_byte : (b : ℕ) → IsByte b → u8_from_str_radix (hex_byte b) ≡ some b
unfolding u8_from_str_radix hex_byte radix_loop
u8_from_str_radix-hex_byte b h =
    ground (
      arith,
      hex_digit-ne-plus (b / 16),
      hex_value-hex_digit (b / 16),
      hex_value-hex_digit (b % 16),
    )

split-hex_byte : (b : ℕ) → IsByte b → split b':' (hex_byte b) ≡ (hex_byte b, [])
unfolding split hex_byte
split-hex_byte b h =
    rw (hex_digit-ne-colon (b / 16) (omega arith), hex_digit-ne-colon (b % 16) (omega arith))

split-hex_byte-colon :
    (b : ℕ) (s : Text)
    → IsByte b
    → split b':' (hex_byte b ++ (b':' ∷ s)) ≡ (hex_byte b, (split b':' s).0 ∷ (split b':' s).1)
unfolding split hex_byte
split-hex_byte-colon b s h =
    rw (hex_digit-ne-colon (b / 16) (omega arith), hex_digit-ne-colon (b % 16) (omega arith))

split-to_string :
    (m : MacAddress)
    → IsMac m
    → split b':' (to_string m) ≡ (
      hex_byte m.b0,
      hex_byte m.b1 ∷ hex_byte m.b2 ∷ hex_byte m.b3 ∷ hex_byte m.b4 ∷ hex_byte m.b5 ∷ [],
    )
unfolding to_string
split-to_string m h = rw (
  split-hex_byte-colon m.b0 _ h.byte0,
  split-hex_byte-colon m.b1 _ h.byte1,
  split-hex_byte-colon m.b2 _ h.byte2,
  split-hex_byte-colon m.b3 _ h.byte3,
  split-hex_byte-colon m.b4 _ h.byte4,
  split-hex_byte m.b5 h.byte5,
)

-- A hardware address of six bytes that is printed is read back by `from_string`.
pub from_string-to_string : (m : MacAddress) → IsMac m → from_string (to_string m) ≡ some m
unfolding from_string from_parts
from_string-to_string m h = rw (
  split-to_string m h,
  u8_from_str_radix-hex_byte m.b0 h.byte0,
  u8_from_str_radix-hex_byte m.b1 h.byte1,
  u8_from_str_radix-hex_byte m.b2 h.byte2,
  u8_from_str_radix-hex_byte m.b3 h.byte3,
  u8_from_str_radix-hex_byte m.b4 h.byte4,
  u8_from_str_radix-hex_byte m.b5 h.byte5,
)

-- The text of an address has no capital letter: lowering it changes nothing.
pub to_lowercase-to_string : (m : MacAddress) → IsMac m → to_lowercase (to_string m) ≡ to_string m
unfolding to_lowercase to_string hex_byte
to_lowercase-to_string m h = simp (
  lower_byte-hex_digit (m.b0 / 16) (omega arith),
  lower_byte-hex_digit (m.b0 % 16) (omega arith),
  lower_byte-hex_digit (m.b1 / 16) (omega arith),
  lower_byte-hex_digit (m.b1 % 16) (omega arith),
  lower_byte-hex_digit (m.b2 / 16) (omega arith),
  lower_byte-hex_digit (m.b2 % 16) (omega arith),
  lower_byte-hex_digit (m.b3 / 16) (omega arith),
  lower_byte-hex_digit (m.b3 % 16) (omega arith),
  lower_byte-hex_digit (m.b4 / 16) (omega arith),
  lower_byte-hex_digit (m.b4 % 16) (omega arith),
  lower_byte-hex_digit (m.b5 / 16) (omega arith),
  lower_byte-hex_digit (m.b5 % 16) (omega arith),
)
