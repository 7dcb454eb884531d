-- ===== src/Ra/Packet/Values.antt =====
-- The values of the options of an advertisement (crates/ndhcpd/src/ra/packet.rs): what a host reads
-- from the bytes of a prefix and of a list of addresses.
use ndhcpd.Common.{ℕ, ◌/◌, ◌%◌, ◌^◌, ◌<◌, ◌≡◌, refl, List, [], ◌∷◌, ◌++◌, arith, All}
use ndhcpd.Bytes.{IsByte, IsU32, from_be32, from_be32-be32}
use ndhcpd.Models.{Ipv6Addr, IaPrefix}
use ndhcpd.Ra.Packet.{octets, prefix_value, octets_of_all}
use ndhcpd.Ra.Packet.Reading.{RaOption, prefix_information, words, read_addresses, read_prefix}

abbrev pub IsU128 : ℕ → Type 0
IsU128 n = n < 2 ^ 128

-- A prefix whose fields fit their widths.
pub record IsPrefix (p : IaPrefix) : Type 0 where
  pub prefix_len : IsByte p.prefix_len
  pub valid_lifetime : IsU32 p.valid_lifetime
  pub preferred_lifetime : IsU32 p.preferred_lifetime
  pub prefix : IsU128 p.prefix

-- A word of an address.
from_be32-cut :
    (n : ℕ)
    → from_be32 (n / 2 ^ 24 % 256) (n / 2 ^ 16 % 256) (n / 2 ^ 8 % 256) (n % 256) ≡ n % 2 ^ 32
from_be32-cut n = omega arith

words-cut :
    (n : ℕ)
    → IsU128 n
    → words (n / 2 ^ 96 % 2 ^ 32) (n / 2 ^ 64 % 2 ^ 32) (n / 2 ^ 32 % 2 ^ 32) (n % 2 ^ 32) ≡ n
words-cut n h = omega arith

read_addresses-octets :
    (a : Ipv6Addr) (rest : List ℕ)
    → IsU128 a
    → read_addresses (octets a ++ rest) ≡ a ∷ read_addresses rest
unfolding read_addresses
read_addresses-octets a rest h = rw (
  from_be32-cut (a / 2 ^ 96),
  from_be32-cut (a / 2 ^ 64),
  from_be32-cut (a / 2 ^ 32),
  from_be32-cut a,
  words-cut a h,
)

pub read_addresses-All :
    (as' : List Ipv6Addr) → All IsU128 as' → read_addresses (octets_of_all as') ≡ as'
unfolding read_addresses octets_of_all
read_addresses-All [] h = refl
read_addresses-All (a ∷ as') (h, hs) =
    rw (read_addresses-octets a (octets_of_all as') h, read_addresses-All as' hs)

-- The option of a prefix, as a host reads it: on-link and for address configuration.
abbrev pub information : IaPrefix → RaOption
information p = prefix_information p.prefix_len 0xc0 p.valid_lifetime p.preferred_lifetime p.prefix

pub read_prefix-value : (p : IaPrefix) → IsPrefix p → read_prefix (prefix_value p) ≡ information p
unfolding read_prefix prefix_value
read_prefix-value p h = rw (
  from_be32-be32 p.valid_lifetime h.valid_lifetime,
  from_be32-be32 p.preferred_lifetime h.preferred_lifetime,
  from_be32-cut (p.prefix / 2 ^ 96),
  from_be32-cut (p.prefix / 2 ^ 64),
  from_be32-cut (p.prefix / 2 ^ 32),
  from_be32-cut p.prefix,
  words-cut p.prefix h.prefix,
)
