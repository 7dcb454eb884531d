-- ===== src/Ra/Tests.antt =====
-- Runs of the Router Advertisement server on small inputs.
use ndhcpd.Common.{
  ◌≡◌, ◌↔◌, false, some, List, [], ◌∷◌, arith, any, if◌then◌else◌, ◌==◌, ==_iff, In, here, there,
  any-In, Bool-cases, inl, inr, subst, sym, ◌∙◌,
}
use ndhcpd.Bytes.{Text}
use ndhcpd.Models.{Ipv6Addr, IaPrefix}
use ndhcpd.Db.Memory
use ndhcpd.Db.Memory.{InMemoryDatabase}
use ndhcpd.Ra.Packet.{build_router_advertisement, all_dns_servers, max_dns_lifetime}
use ndhcpd.Ra.Packet.Reading.{read}
use ndhcpd.Ra.Packet.Values.{IsPrefix}
use ndhcpd.Ra.Packet.RoundTrip.{advertised, read-build_router_advertisement}
use ndhcpd.Ra.Packet.Servers.{servers_in, servers_learned}
use ndhcpd.Ra.Server.{Event, tick, readable, received, would_block}

-- One way to walk a set: by the last place of each member in the list.
last_places : List Ipv6Addr → List Ipv6Addr
last_places [] = []
last_places (a ∷ as') =
    let rest = last_places as' in if any (λ b. b == a) as' then rest else a ∷ rest

last_places_iff : (xs : List Ipv6Addr) (a : Ipv6Addr) → In a (last_places xs) ↔ In a xs
unfolding last_places
last_places_iff [] a = (λ m. m, λ m. m)
last_places_iff (x ∷ xs) a =
    let rest = last_places_iff xs a in
    elim (Bool-cases (any (λ b. b == x) xs)) [
      | inl e ↦
          let (b, q, k) = any-In (λ b. b == x) xs e in
          let same : b ≡ x = (==_iff _ _).0 q in
          rw e (
            λ m. there (rest.0 m),
            λ m. elim m [
              | here f ↦ rest.1 (subst (λ z. In z xs) (same ∙ sym f) k)
              | there l ↦ rest.1 l
            ],
          )
      | inr e ↦ rw e (
        λ m. elim m [ here f ↦ here f | there l ↦ there (rest.0 l) ],
        λ m. elim m [ here f ↦ here f | there l ↦ there (rest.1 l) ],
      )
    ]

abbrev eth0 : Text
eth0 = b'e' ∷ b't' ∷ b'h' ∷ b'0' ∷ []

-- 2001:db8::/64 with the DNS server 2001:db8::1.
abbrev lan : IaPrefix
lan = record {
  id = some 1;
  interface = eth0;
  prefix = 0x20010db8000000000000000000000000;
  prefix_len = 64;
  preferred_lifetime = 14400;
  valid_lifetime = 86400;
  dns_servers = 0x20010db8000000000000000000000001 ∷ [];
  dns_lifetime = 3600;
}

lan-IsPrefix : IsPrefix lan
lan-IsPrefix = record {
  prefix_len = omega arith;
  valid_lifetime = omega arith;
  preferred_lifetime = omega arith;
  prefix = omega arith;
}

read-build_router_advertisement_example :
    read (build_router_advertisement last_places (lan ∷ []) 64 1800 false false)
    ≡ some (advertised last_places (lan ∷ []) 64 1800 false false)
unfolding last_places all_dns_servers max_dns_lifetime
read-build_router_advertisement_example =
    read-build_router_advertisement last_places (lan ∷ []) 64 1800 false false (lan-IsPrefix, tt)
      (omega arith) (omega arith) (omega arith, tt) (omega arith)

servers_learned_example :
    In 0x20010db8000000000000000000000001
      (servers_in (advertised last_places (lan ∷ lan ∷ []) 64 1800 false false).options)
    ↔ ((p : IaPrefix) × In p (lan ∷ lan ∷ []) × In 0x20010db8000000000000000000000001 p.dns_servers)
unfolding last_places all_dns_servers max_dns_lifetime
servers_learned_example =
    servers_learned last_places last_places_iff (lan ∷ lan ∷ []) 64 1800 false false
      (lan-IsPrefix, (lan-IsPrefix, tt)) (omega arith) (omega arith) (omega arith, tt) (omega arith)
      (advertised last_places (lan ∷ lan ∷ []) 64 1800 false false)
      (read-build_router_advertisement last_places (lan ∷ lan ∷ []) 64 1800 false false
        (lan-IsPrefix, (lan-IsPrefix, tt)) (omega arith) (omega arith) (omega arith, tt)
        (omega arith))
      0x20010db8000000000000000000000001

abbrev sample : InMemoryDatabase
sample = record Memory.new { ia_prefixes = lan ∷ [] }

-- The start, a tick, and a datagram that is no solicitation before one that is.
abbrev woken : List (Event InMemoryDatabase)
woken =
    tick sample
    ∷ readable (received (134 ∷ []) sample ∷ received (133 ∷ 0 ∷ []) sample ∷ would_block ∷ [])
    ∷ []
