-- ===== src/Ra/Packet/Servers.antt =====
-- The DNS servers that a host learns from an advertisement of crates/ndhcpd/src/ra/packet.rs.
use ndhcpd.Common.{
  ℕ, ◌≤◌, ◌≡◌, ◌↔◌, refl, sym, subst, ap, Bool, some, List, [], ◌∷◌, ◌++◌, map, arith, length, All,
  In, here, there, In-append, append-In, append_left-In, inl, inr, ◌∙◌, append-nil,
}
use ndhcpd.Bytes.{IsU16, IsU32}
use ndhcpd.Models.{Ipv6Addr, IaPrefix}
use ndhcpd.Ra.Packet.{all_dns_servers, max_dns_lifetime, build_router_advertisement}
use ndhcpd.Ra.Packet.Reading.{RaOption, prefix_information, rdnss, ignored, Advertisement, read}
use ndhcpd.Ra.Packet.Values.{IsU128, IsPrefix, information}
use ndhcpd.Ra.Packet.RoundTrip.{servers_option, advertised, read-build_router_advertisement}

-- The servers of all RDNSS options.
pub servers_in : List RaOption → List Ipv6Addr
servers_in [] = []
servers_in (rdnss lifetime servers ∷ os) = servers ++ servers_in os
servers_in (prefix_information l f v q p ∷ os) = servers_in os
servers_in (ignored ∷ os) = servers_in os

servers_in-advertised :
    (ps : List IaPrefix) (lifetime : ℕ) (servers : List Ipv6Addr)
    → servers_in (map information ps ++ servers_option lifetime servers) ≡ servers
unfolding servers_in
servers_in-advertised [] lifetime [] = refl
servers_in-advertised [] lifetime (a ∷ as') = append-nil (a ∷ as')
servers_in-advertised (p ∷ ps) lifetime servers = servers_in-advertised ps lifetime servers

all_dns_servers_iff :
    (ps : List IaPrefix) (a : Ipv6Addr)
    → In a (all_dns_servers ps) ↔ ((p : IaPrefix) × In p ps × In a p.dns_servers)
unfolding all_dns_servers
all_dns_servers_iff [] a = (λ m. elim m [ ], λ (p, m, k). elim m [ ])
all_dns_servers_iff (p ∷ ps) a = (
  λ m. elim (In-append p.dns_servers (all_dns_servers ps) a m) [
    | inl k ↦ (p, here refl, k)
    | inr k ↦ let (q, l, n) = (all_dns_servers_iff ps a).0 k in (q, there l, n)
  ],
  λ (q, m, k). elim m [
    | here e ↦
        append_left-In p.dns_servers (all_dns_servers ps) a
          (subst (λ (z : IaPrefix). In a z.dns_servers) e k)
    | there l ↦
        append-In p.dns_servers (all_dns_servers ps) a ((all_dns_servers_iff ps a).1 (q, l, k))
  ],
)

-- Where collecting into a set loses no member and adds none, a host that reads an advertisement
-- learns exactly the DNS servers that some prefix lists. The fields fit their widths, and there are
-- at most 127 DNS servers.
pub servers_learned :
    (distinct : List Ipv6Addr → List Ipv6Addr)
    → ((xs : List Ipv6Addr) (a : Ipv6Addr) → In a (distinct xs) ↔ In a xs)
    → (prefixes : List IaPrefix) (hop_limit router_lifetime : ℕ) (managed other : Bool)
    → All IsPrefix prefixes
    → IsU16 router_lifetime
    → IsU32 (max_dns_lifetime prefixes)
    → All IsU128 (distinct (all_dns_servers prefixes))
    → length (distinct (all_dns_servers prefixes)) ≤ 127
    → (ad : Advertisement)
    → read (build_router_advertisement distinct prefixes hop_limit router_lifetime managed other)
      ≡ some ad
    → (a : Ipv6Addr)
    → In a (servers_in ad.options) ↔ ((p : IaPrefix) × In p prefixes × In a p.dns_servers)
servers_learned distinct same prefixes hop_limit life managed other h l d s n ad e a =
    let servers = distinct (all_dns_servers prefixes) in
    let built =
      read-build_router_advertisement distinct prefixes hop_limit life managed other h l d s n in
    let found : advertised distinct prefixes hop_limit life managed other ≡ ad =
      ground (arith, built, e) in
    let learned : servers_in ad.options ≡ servers =
      ap (λ (z : Advertisement). servers_in z.options) (sym found)
      ∙ servers_in-advertised prefixes (max_dns_lifetime prefixes) servers in
    let member = same (all_dns_servers prefixes) a in
    let listed = all_dns_servers_iff prefixes a in
    (
      λ m. listed.0 (member.0 (subst (In a) learned m)),
      λ k. subst (In a) (sym learned) (member.1 (listed.1 k)),
    )
