-- ===== src/Dhcp/Offers.antt =====
-- What `handle_discover` of crates/ndhcpd/src/dhcp/server.rs offers, and when it offers nothing.
use ndhcpd.Common.{
  ℕ, ◌≡◌, ◌≢◌, refl, sym, ap, ◌∙◌, ◌⊎◌, inl, inr, true, false, none, some, List, map, ok, In,
  any-In, In-any, In-map, map-In, arith, ◌==◌, ==_iff, Option-cases, Bool-cases, Result-cases,
}
use ndhcpd.Bytes.{Ipv4Addr, text_eq, to_lowercase}
use ndhcpd.Config.{Config}
use ndhcpd.Models.{Subnet, StaticIp, Lease}
use ndhcpd.Db.Interface.{Database, is_active}
use ndhcpd.Db.LeaseLaws.{LeaseLaws}
use ndhcpd.Proto.Mac.{to_string}
use ndhcpd.Proto.Packet.{DhcpPacket}
use ndhcpd.Dhcp.Reply.{iface_in_subnet, create_offer}
use ndhcpd.Dhcp.Discover.{
  Clock, Flow, return, go_on, contains, free_in_subnets, offer_known, offer_static, offer_lease,
  offer_dynamic, handle_discover,
}
use ndhcpd.Dhcp.Allocate.{Allocatable, free_in_subnets_found, free_in_subnets_missed}

Flow-cases : {A : Type 0} (f : Flow A) → ((a : A) × (f ≡ return a)) ⊎ (f ≡ go_on)
Flow-cases (return a) = inl (a, refl)
Flow-cases go_on = inr refl

leased_ips : List Lease → List Ipv4Addr
leased_ips active = map (λ (l : Lease). l.ip_address) active

leased_lease :
    (active : List Lease) (ip : Ipv4Addr)
    → contains (leased_ips active) ip ≡ true
    → (l : Lease) × In l active × (l.ip_address ≡ ip)
unfolding leased_ips
leased_lease active ip h =
    let (a, e, m) = any-In (λ l. l == ip) (leased_ips active) h in
    let (l, k, f) = In-map _ active a m in (l, k, sym f ∙ (==_iff _ _).0 e)

not_leased :
    (active : List Lease) (ip : Ipv4Addr) (l : Lease)
    → contains (leased_ips active) ip ≡ false
    → In l active
    → l.ip_address ≢ ip
unfolding leased_ips
not_leased active ip l h m e =
    let k =
      In-any (λ l. l == ip) (leased_ips active) l.ip_address ((==_iff _ _).1 e)
        (map-In _ active l m) in
    ground (arith, k)

module _ {S : Type 0} (db : Database S) (laws : LeaseLaws db) (config : Config)
    (packet : DhcpPacket) (iface_ips : List Ipv4Addr) (s : S) where
  open laws use {leases}

  -- Why an address of the subnet is offered.
  pub data Basis (clock : Clock) (ip : Ipv4Addr) (subnet : Subnet) : Type 0 where
    statically :
        (static_ip : StaticIp)
        → db.get_static_ip_by_mac (to_string packet.chaddr) s ≡ ok (some static_ip)
        → static_ip.ip_address ≡ ip
        → db.get_subnet static_ip.subnet_id s ≡ ok (some subnet)
        → Basis clock ip subnet
    again :
        (lease : Lease)
        → db.get_active_lease clock.first (to_string packet.chaddr) s ≡ ok (some lease)
        → In lease (leases s)
        → text_eq (to_lowercase lease.mac_address) (to_lowercase (to_string packet.chaddr)) ≡ true
        → is_active clock.first lease ≡ true
        → lease.ip_address ≡ ip
        → db.get_subnet lease.subnet_id s ≡ ok (some subnet)
        → Basis clock ip subnet
    free :
        (subnets : List Subnet)
        → db.list_subnets s ≡ ok subnets
        → Allocatable db iface_ips s subnets ip subnet
        → ((l : Lease) → In l (leases s) → is_active clock.second l ≡ true → l.ip_address ≢ ip)
        → Basis clock ip subnet

  pub record Offer (clock : Clock) (r : DhcpPacket) : Type 0 where
    pub ip : Ipv4Addr
    pub subnet : Subnet
    pub reply : r ≡ create_offer packet ip subnet config
    pub reachable : iface_in_subnet iface_ips subnet ≡ true
    pub basis : Basis clock ip subnet

  offer_known-Offer :
      (clock : Clock) (i : ℕ) (ip : Ipv4Addr) (r : DhcpPacket)
      → ((subnet : Subnet) → db.get_subnet i s ≡ ok (some subnet) → Basis clock ip subnet)
      → offer_known db config packet iface_ips i ip s ≡ return (some r)
      → Offer clock r
  unfolding offer_known
  offer_known-Offer clock i ip r basis h = elim (Result-cases (db.get_subnet i s)) [
    | inr (_, g) ↦ absurd (ground (arith, g))
    | inl (answer, g) ↦ elim (Option-cases answer) [
      | inl n ↦ absurd (ground (arith, g, n))
      | inr (subnet, f) ↦ elim (Bool-cases (iface_in_subnet iface_ips subnet)) [
        | inr out ↦ absurd (ground (arith, g, f, out))
        | inl reach ↦ record {
          ip = ip;
          subnet = subnet;
          reply = ground (arith, g, f, reach);
          reachable = reach;
          basis = basis subnet (rw f at g);
        }
      ]
    ]
  ]

  offer_static-Offer :
      (clock : Clock) (r : DhcpPacket)
      → offer_static db config packet iface_ips s ≡ return (some r)
      → Offer clock r
  unfolding offer_static
  offer_static-Offer clock r h =
      elim (Result-cases (db.get_static_ip_by_mac (to_string packet.chaddr) s)) [
        | inr (_, g) ↦ absurd (ground (arith, g))
        | inl (answer, g) ↦ elim (Option-cases answer) [
          | inl n ↦ absurd (ground (arith, g, n))
          | inr (static_ip, f) ↦
              offer_known-Offer clock static_ip.subnet_id static_ip.ip_address r
                (λ subnet e. statically static_ip (rw f at g) refl e) (ground (arith, g, f))
        ]
      ]

  offer_lease-Offer :
      (clock : Clock) (r : DhcpPacket)
      → offer_lease db config packet iface_ips clock.first s ≡ return (some r)
      → Offer clock r
  unfolding offer_lease
  offer_lease-Offer clock r h =
      elim (Result-cases (db.get_active_lease clock.first (to_string packet.chaddr) s)) [
        | inr (_, g) ↦ absurd (ground (arith, g))
        | inl (answer, g) ↦ elim (Option-cases answer) [
          | inl n ↦ absurd (ground (arith, g, n))
          | inr (lease, f) ↦
              let held = rw f at g in
              let (row, same, active) =
                laws.get_active clock.first (to_string packet.chaddr) s lease held in
              offer_known-Offer clock lease.subnet_id lease.ip_address r
                (λ subnet e. again lease held row same active refl e) (ground (arith, g, f))
        ]
      ]

  offer_dynamic-Offer :
      (clock : Clock) (r : DhcpPacket)
      → offer_dynamic db config packet iface_ips clock.second s ≡ some r
      → Offer clock r
  unfolding offer_dynamic leased_ips
  offer_dynamic-Offer clock r h = elim (Result-cases (db.list_subnets s)) [
    | inr (_, g) ↦ absurd (ground (arith, g))
    | inl (subnets, g) ↦ elim (Result-cases (db.list_active_leases clock.second s)) [
      | inr (_, k) ↦ absurd (ground (arith, g, k))
      | inl (active, k) ↦
          elim (Option-cases (free_in_subnets db iface_ips subnets (leased_ips active) s)) [
            | inl n ↦ absurd (ground (arith, g, k, n))
            | inr ((ip, subnet), f) ↦
                let (a, unleased) = free_in_subnets_found db iface_ips s subnets _ ip subnet f in
                record {
                  ip = ip;
                  subnet = subnet;
                  reply = ground (arith, g, k, f);
                  reachable = a.reachable;
                  basis = free subnets g a (λ l row act.
                      not_leased active ip l unleased
                        ((laws.list_active clock.second s active l k).1 (row, act)));
                }
          ]
    ]
  ]

  -- Over a database that meets the lease laws, an address is offered only from a subnet that the
  -- interface reaches, and only if it is the client's static address, the address of an active
  -- lease of the client, or an address of an enabled range on which nobody holds an active lease.
  pub handle_discover-Offer :
      (clock : Clock) (r : DhcpPacket)
      → handle_discover db config packet iface_ips clock s ≡ some r
      → Offer clock r
  unfolding handle_discover
  handle_discover-Offer clock r h = elim (Flow-cases (offer_static db config packet iface_ips s)) [
    | inl (o, e) ↦ offer_static-Offer clock r (e ∙ ap return (ground (arith, e)))
    | inr e ↦ elim (Flow-cases (offer_lease db config packet iface_ips clock.first s)) [
      | inl (o, f) ↦ offer_lease-Offer clock r (f ∙ ap return (ground (arith, e, f)))
      | inr f ↦ offer_dynamic-Offer clock r (ground (arith, e, f))
    ]
  ]

  -- Over a database that meets the lease laws and answers, a client without a static address and
  -- without an active lease gets no offer only if every address of every enabled range of the
  -- reachable subnets is actively leased.
  pub handle_discover_exhausted :
      (clock : Clock) (subnets : List Subnet) (active : List Lease) (ip : Ipv4Addr)
      (subnet : Subnet)
      → db.get_static_ip_by_mac (to_string packet.chaddr) s ≡ ok none
      → db.get_active_lease clock.first (to_string packet.chaddr) s ≡ ok none
      → db.list_subnets s ≡ ok subnets
      → db.list_active_leases clock.second s ≡ ok active
      → handle_discover db config packet iface_ips clock s ≡ none
      → Allocatable db iface_ips s subnets ip subnet
      → (l : Lease) × In l (leases s) × (is_active clock.second l ≡ true) × (l.ip_address ≡ ip)
  unfolding handle_discover offer_static offer_lease offer_dynamic leased_ips
  handle_discover_exhausted clock subnets active ip subnet e f g k h a =
      let missed : free_in_subnets db iface_ips subnets (leased_ips active) s ≡ none =
        elim (Option-cases (free_in_subnets db iface_ips subnets (leased_ips active) s)) [
          | inl n ↦ n
          | inr ((found, q), n) ↦ absurd (ground (arith, e, f, g, k, n))
        ] in
      let (l, m, same) =
        leased_lease active ip
          (free_in_subnets_missed db iface_ips s subnets _ ip subnet missed a) in
      let (row, act) = (laws.list_active clock.second s active l k).0 m in (l, row, act, same)
