-- ===== src/Ra/Packet/RoundTrip.antt =====
-- A host reads from the bytes of `build_router_advertisement` (crates/ndhcpd/src/ra/packet.rs) what
-- the advertisement was built from.
use ndhcpd.Common.{
  ℕ, zero, suc, ◌+◌, ◌-◌, ◌*◌, ◌%◌, ◌≤◌, ◌<◌, ◌≡◌, refl, ap, Bool, none, some, List, [], ◌∷◌, ◌++◌,
  map, arith, leb, le→leb, true, false, if◌then◌else◌, ◌==◌, length, take, drop, All, length-append,
  take-length-append, drop-length-append, append-nil, ◌∙◌,
}
use ndhcpd.Bytes.{IsU16, IsU32, be32, from_be16-be16, from_be32-be32}
use ndhcpd.Models.{Ipv6Addr, IaPrefix}
use ndhcpd.Ra.Packet.{
  flags_of, prefix_value, prefix_options, all_dns_servers, max_dns_lifetime, octets_of_all,
  rdnss_option, build_router_advertisement,
}
use ndhcpd.Ra.Packet.Reading.{
  RaOption, rdnss, Advertisement, read_rdnss, read_option, read_options, add_option, read,
}
use ndhcpd.Ra.Packet.Values.{IsU128, IsPrefix, read_addresses-All, information, read_prefix-value}

clause :
    (fuel type units : ℕ) (body : List ℕ)
    → read_options (suc fuel) (type ∷ units ∷ body) ≡ (
        if units == 0
        then none
        else if leb (8 * units - 2) (length body)
        then add_option
            (read_option type (take (8 * units - 2) body))
            (read_options fuel (drop (8 * units - 2) body))
        else none)
unfolding read_options
clause fuel type units body = refl

-- One option, whatever follows it.
read_options-step :
    (fuel type units : ℕ) (value rest : List ℕ) (os : List RaOption)
    → 0 < units
    → length value + 2 ≡ 8 * units
    → read_options fuel rest ≡ some os
    → read_options (suc fuel) (type ∷ units ∷ (value ++ rest)) ≡ some (read_option type value ∷ os)
read_options-step fuel type units value rest os h k e =
    let size : 8 * units - 2 ≡ length value = omega arith in
    let some_units : (units == 0) ≡ false = ground arith in
    let fits : leb (length value) (length (value ++ rest)) ≡ true =
      le→leb _ _ (omega (arith, length-append value rest)) in
    rw (
      clause,
      some_units,
      size,
      fits,
      take-length-append value rest,
      drop-length-append value rest,
      e,
    )

length-octets_of_all : (as' : List Ipv6Addr) → length (octets_of_all as') ≡ 16 * length as'
unfolding octets_of_all
length-octets_of_all [] = omega arith
length-octets_of_all (a ∷ as') = omega (arith, length-octets_of_all as')

-- The RDNSS option of the advertisement, if it has one.
abbrev pub servers_option : ℕ → List Ipv6Addr → List RaOption
servers_option lifetime [] = []
servers_option lifetime (a ∷ as') = rdnss lifetime (a ∷ as') ∷ []

read_options_end : (fuel : ℕ) → read_options fuel [] ≡ some []
unfolding read_options
read_options_end zero = refl
read_options_end (suc fuel) = refl

-- The value of the RDNSS option, after its type and its length.
abbrev servers_value : ℕ → List Ipv6Addr → List ℕ
servers_value lifetime servers = 0 ∷ 0 ∷ (be32 lifetime ++ octets_of_all servers)

read_option-servers :
    (lifetime : ℕ) (servers : List Ipv6Addr)
    → IsU32 lifetime
    → All IsU128 servers
    → read_option 25 (servers_value lifetime servers) ≡ rdnss lifetime servers
unfolding read_option read_rdnss
read_option-servers lifetime servers l h =
    rw (from_be32-be32 lifetime l, read_addresses-All servers h) refl

read_option-prefix : (p : IaPrefix) → IsPrefix p → read_option 3 (prefix_value p) ≡ information p
unfolding read_option
read_option-prefix p h = read_prefix-value p h

length-prefix_value : (p : IaPrefix) → length (prefix_value p) + 2 ≡ 8 * 4
unfolding prefix_value
length-prefix_value p = refl

read_rdnss_option :
    (fuel lifetime : ℕ) (servers : List Ipv6Addr)
    → IsU32 lifetime
    → All IsU128 servers
    → length servers ≤ 127
    → read_options (suc fuel) (rdnss_option lifetime servers)
      ≡ some (servers_option lifetime servers)
unfolding rdnss_option
read_rdnss_option fuel lifetime [] l h n = unfold read_options in refl
read_rdnss_option fuel lifetime (a ∷ as') l h n =
    let units : (1 + 2 * suc (length as')) % 256 ≡ 1 + 2 * suc (length as') = omega arith in
    let value = servers_value lifetime (a ∷ as') in
    let step =
      read_options-step fuel 25 (1 + 2 * suc (length as')) value [] [] (omega arith)
        (omega (arith, length-octets_of_all (a ∷ as'))) (read_options_end fuel) in
    rw (units, ← append-nil (octets_of_all as'))
      (step ∙ ap (λ o. some (o ∷ [])) (read_option-servers lifetime (a ∷ as') l h))

read_prefix_options :
    (ps : List IaPrefix) (fuel : ℕ) (tail : List ℕ) (os : List RaOption)
    → All IsPrefix ps
    → ((f : ℕ) → read_options (suc f) tail ≡ some os)
    → length ps < fuel
    → read_options fuel (prefix_options ps ++ tail) ≡ some (map information ps ++ os)
unfolding prefix_options
read_prefix_options ps zero tail os h e f = absurd (omega arith)
read_prefix_options [] (suc fuel) tail os h e f = e fuel
read_prefix_options (p ∷ ps) (suc fuel) tail os (h, hs) e f =
    read_options-step fuel 3 4 (prefix_value p) (prefix_options ps ++ tail) _ (omega arith)
      (length-prefix_value p) (read_prefix_options ps fuel tail os hs e (omega arith))
    ∙ ap (λ o. some (o ∷ (map information ps ++ os))) (read_option-prefix p h)

length-prefix_options : (ps : List IaPrefix) → length ps ≤ length (prefix_options ps)
unfolding prefix_options prefix_value
length-prefix_options [] = omega arith
length-prefix_options (p ∷ ps) = omega (arith, length-prefix_options ps)

module _ (distinct : List Ipv6Addr → List Ipv6Addr) where
  -- What the advertisement tells a host.
  abbrev pub advertised : List IaPrefix → ℕ → ℕ → Bool → Bool → Advertisement
  advertised prefixes hop_limit router_lifetime managed other = record {
    hop_limit = hop_limit;
    flags = flags_of managed other;
    router_lifetime = router_lifetime;
    reachable_time = 0;
    retrans_timer = 0;
    options =
        map information prefixes
        ++ servers_option (max_dns_lifetime prefixes) (distinct (all_dns_servers prefixes));
  }

  -- A host that reads the bytes of an advertisement, by the formats of RFC 4861 and RFC 6106, finds
  -- one Prefix Information option for each prefix, with its lifetimes and its address, and one RDNSS
  -- option with the DNS servers where there are any. The fields fit their widths, and there are at
  -- most 127 DNS servers.
  pub read-build_router_advertisement :
      (prefixes : List IaPrefix) (hop_limit router_lifetime : ℕ) (managed other : Bool)
      → All IsPrefix prefixes
      → IsU16 router_lifetime
      → IsU32 (max_dns_lifetime prefixes)
      → All IsU128 (distinct (all_dns_servers prefixes))
      → length (distinct (all_dns_servers prefixes)) ≤ 127
      → read (build_router_advertisement distinct prefixes hop_limit router_lifetime managed other)
        ≡ some (advertised prefixes hop_limit router_lifetime managed other)
  unfolding read build_router_advertisement
  read-build_router_advertisement prefixes hop_limit router_lifetime managed other h l d s n =
      let servers = distinct (all_dns_servers prefixes) in
      let tail = rdnss_option (max_dns_lifetime prefixes) servers in
      let options =
        read_prefix_options prefixes (suc (length (prefix_options prefixes ++ tail))) tail _ h
          (λ f. read_rdnss_option f (max_dns_lifetime prefixes) servers d s n)
          (omega (
            arith,
            length-append (prefix_options prefixes) tail,
            length-prefix_options prefixes,
          )) in
      rw (options, from_be16-be16 router_lifetime l) refl
