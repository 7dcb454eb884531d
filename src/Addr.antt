-- ===== src/Addr.antt =====
-- `Display` and `FromStr` of the standard library's `Ipv4Addr`: four decimal numbers joined by dots.
pub mod RoundTrip
use ndhcpd.Common.{
  ℕ, ◌+◌, ◌-◌, ◌*◌, ◌/◌, ◌%◌, ◌^◌, Bool, ◌&&◌, not, Option, none, some, List, [], ◌∷◌, ◌++◌, ltb,
  leb, ◌==◌, ◌>>=◌, if◌then◌else◌,
}
use ndhcpd.Bytes.{Text, Ipv4Addr, ipv4, split}

-- A `u8` in decimal.
unfoldable pub decimal : ℕ → Text
decimal n =
    if ltb n 10
    then (b'0' + n) ∷ []
    else if ltb n 100
    then (b'0' + n / 10) ∷ (b'0' + n % 10) ∷ []
    else (b'0' + n / 100) ∷ (b'0' + n / 10 % 10) ∷ (b'0' + n % 10) ∷ []

unfoldable pub ipv4_to_string : Ipv4Addr → Text
unfolding decimal
ipv4_to_string a =
    decimal (a / 2 ^ 24 % 256)
    ++ (b'.'
        ∷ (decimal (a / 2 ^ 16 % 256)
            ++ (b'.' ∷ (decimal (a / 2 ^ 8 % 256) ++ (b'.' ∷ decimal (a % 256))))))

abbrev pub is_digit : ℕ → Bool
is_digit c = leb b'0' c && leb c b'9'

-- One number of an address: one to three digits, no zero before another digit, at most 255.
unfoldable pub octet : Text → Option ℕ
octet (a ∷ []) = if is_digit a then some (a - b'0') else none
octet (a ∷ b ∷ []) =
    if is_digit a && is_digit b && not (a == b'0')
    then some ((a - b'0') * 10 + (b - b'0'))
    else none
octet (a ∷ b ∷ c ∷ []) =
    let value : ℕ = (a - b'0') * 100 + (b - b'0') * 10 + (c - b'0') in
    if is_digit a && is_digit b && is_digit c && not (a == b'0') && leb value 255
    then some value
    else none
octet _ = none

unfoldable pub ipv4_of_parts : List Text → Option Ipv4Addr
ipv4_of_parts (p0 ∷ p1 ∷ p2 ∷ p3 ∷ []) = do
  a ← octet p0
  b ← octet p1
  c ← octet p2
  d ← octet p3
  some (ipv4 a b c d)
ipv4_of_parts _ = none

unfoldable pub ipv4_from_string : Text → Option Ipv4Addr
ipv4_from_string s = let (part, rest) = split b'.' s in ipv4_of_parts (part ∷ rest)
