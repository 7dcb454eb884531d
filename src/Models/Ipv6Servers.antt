-- ===== src/Models/Ipv6Servers.antt =====
-- `IAPrefix::dns_servers_to_string` and `dns_servers_from_string` of crates/ndhcpd/src/models.rs. The
-- text form of an IPv6 address is the standard library's: `to_string` and `parse` are parameters,
-- with what RFC 5952 says of them.
use ndhcpd.Common.{◌^◌, ◌<◌, ◌≡◌, none, some, Option, List, [], map, All, All-mono, filter_map}
use ndhcpd.Bytes.{Text, join}
use ndhcpd.Models.{Ipv6Addr}
use ndhcpd.Models.DnsServers.{trim, comma_parts, IsPlain, IsReadBack, joined_read}

pub record Ipv6Text : Type 0 where
  pub to_string : Ipv6Addr → Text
  pub from_string : Text → Option Ipv6Addr

abbrev pub IsU128 : Ipv6Addr → Type 0
IsU128 a = a < 2 ^ 128

-- A printed address is read back, and has digits, letters, colons and dots only. No address has an
-- empty text.
pub record IsIpv6Text (ipv6 : Ipv6Text) : Type 0 where
  pub read : (a : Ipv6Addr) → IsU128 a → ipv6.from_string (ipv6.to_string a) ≡ some a
  pub plain : (a : Ipv6Addr) → IsPlain (ipv6.to_string a)
  pub empty : ipv6.from_string [] ≡ none

module _ (ipv6 : Ipv6Text) where
  -- `.map(|ip| ip.to_string()).collect::<Vec<_>>().join(",")`
  unfoldable pub dns_servers_to_string : List Ipv6Addr → Text
  unfolding join
  dns_servers_to_string servers = join b',' (map ipv6.to_string servers)

  -- `s.split(',').filter_map(|ip| ip.trim().parse().ok()).collect()`
  unfoldable pub dns_servers_from_string : Text → List Ipv6Addr
  unfolding comma_parts trim
  dns_servers_from_string s = filter_map (λ ip. ipv6.from_string (trim ip)) (comma_parts s)

  pub ipv6_servers_read :
      (laws : IsIpv6Text ipv6) (servers : List Ipv6Addr)
      → All IsU128 servers
      → dns_servers_from_string (dns_servers_to_string servers) ≡ servers
  unfolding dns_servers_from_string dns_servers_to_string
  ipv6_servers_read laws servers h =
      joined_read ipv6.to_string ipv6.from_string servers laws.empty (
        All-mono IsU128 (IsReadBack ipv6.to_string ipv6.from_string)
          (λ a fits. (laws.read a fits, laws.plain a)) servers h)
