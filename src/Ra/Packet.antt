-- ===== src/Ra/Packet.antt =====
-- `build_router_advertisement` of crates/ndhcpd/src/ra/packet.rs. The order in which a `HashSet` is
-- walked is not fixed by its documentation: `distinct`, the list that collecting into a set and
-- back gives, is a parameter.
pub mod Reading
pub mod Values
pub mod RoundTrip
pub mod Servers
use ndhcpd.Common.{
  ℕ, ◌+◌, ◌*◌, ◌/◌, ◌%◌, ◌^◌, Bool, List, [], ◌∷◌, ◌++◌, length, max, bit_or, if◌then◌else◌,
}
use ndhcpd.Bytes.{be16, be32}
use ndhcpd.Models.{Ipv6Addr, IaPrefix}

abbrev pub icmpv6_type_rs : ℕ
icmpv6_type_rs = 133

abbrev pub icmpv6_type_ra : ℕ
icmpv6_type_ra = 134

-- `octets` of an `Ipv6Addr`.
abbrev pub octets : Ipv6Addr → List ℕ
octets a = be32 (a / 2 ^ 96) ++ (be32 (a / 2 ^ 64) ++ (be32 (a / 2 ^ 32) ++ be32 a))

-- `(if managed { 0x80 } else { 0 }) | (if other { 0x40 } else { 0 })`
unfoldable pub flags_of : Bool → Bool → ℕ
flags_of managed other = bit_or (if managed then 0x80 else 0) (if other then 0x40 else 0)

-- The value of a Prefix Information option, after its type and its length.
unfoldable pub prefix_value : IaPrefix → List ℕ
prefix_value p =
    p.prefix_len
    ∷ 0xc0
    ∷ (be32 p.valid_lifetime ++ (be32 p.preferred_lifetime ++ (be32 0 ++ octets p.prefix)))

-- One option for each prefix.
unfoldable pub prefix_options : List IaPrefix → List ℕ
unfolding prefix_value
prefix_options [] = []
prefix_options (p ∷ ps) = 3 ∷ 4 ∷ (prefix_value p ++ prefix_options ps)

-- `prefixes.iter().flat_map(|p| p.dns_servers.iter().copied())`
unfoldable pub all_dns_servers : List IaPrefix → List Ipv6Addr
all_dns_servers [] = []
all_dns_servers (p ∷ ps) = p.dns_servers ++ all_dns_servers ps

-- `prefixes.iter().map(|p| p.dns_lifetime).max().unwrap_or(3600)`
unfoldable pub max_dns_lifetime : List IaPrefix → ℕ
max_dns_lifetime [] = 3600
max_dns_lifetime (p ∷ []) = p.dns_lifetime
max_dns_lifetime (p ∷ q ∷ ps) = max p.dns_lifetime (max_dns_lifetime (q ∷ ps))

unfoldable pub octets_of_all : List Ipv6Addr → List ℕ
octets_of_all [] = []
octets_of_all (a ∷ as') = octets a ++ octets_of_all as'

-- The RDNSS option, where there is a server; its length in units of 8 bytes is cut by `as u8`.
unfoldable pub rdnss_option : ℕ → List Ipv6Addr → List ℕ
unfolding octets_of_all
rdnss_option lifetime [] = []
rdnss_option lifetime (a ∷ as') =
    25 ∷ ((1 + 2 * length (a ∷ as')) % 256) ∷ 0 ∷ 0 ∷ (be32 lifetime ++ octets_of_all (a ∷ as'))

module _ (distinct : List Ipv6Addr → List Ipv6Addr) where
  unfoldable pub build_router_advertisement : List IaPrefix → ℕ → ℕ → Bool → Bool → List ℕ
  build_router_advertisement prefixes cur_hop_limit router_lifetime_secs managed other =
      icmpv6_type_ra
      ∷ 0
      ∷ 0
      ∷ 0
      ∷ cur_hop_limit
      ∷ flags_of managed other
      ∷ (be16 router_lifetime_secs
          ++ (be32 0
              ++ (be32 0
                  ++ (prefix_options prefixes
                      ++ rdnss_option (max_dns_lifetime prefixes)
                          (distinct (all_dns_servers prefixes))))))
