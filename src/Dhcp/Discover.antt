-- ===== src/Dhcp/Discover.antt =====
-- `handle_discover` of crates/ndhcpd/src/dhcp/server.rs: which address is offered.
use ndhcpd.Common.{
  ℕ, zero, suc, ◌+◌, ◌-◌, Bool, not, Option, none, some, List, [], ◌∷◌, map, ◌==◌, if◌then◌else◌,
  any, ok, err,
}
use ndhcpd.Bytes.{Ipv4Addr}
use ndhcpd.Config.{Config}
use ndhcpd.Db.Interface.{Database}
use ndhcpd.Models.{Subnet, DynamicRange, Lease}
use ndhcpd.Proto.Mac.{to_string}
use ndhcpd.Proto.Packet.{DhcpPacket}
use ndhcpd.Dhcp.Reply.{iface_in_subnet, create_offer}

-- The two readings of the clock that a handler makes, in their order.
pub record Clock : Type 0 where
  pub first : ℕ
  pub second : ℕ

-- A part of a handler returns from it, or lets the next part run.
pub data Flow (A : Type 0) : Type 0 where
  return : A → Flow A
  go_on : Flow A

-- `leased_ips.contains(&ip)`
abbrev pub contains : List Ipv4Addr → Ipv4Addr → Bool
contains leased ip = any (λ l. l == ip) leased

-- The loop over `start..=end`: the first of `count` addresses from `ip` on that is not leased.
unfoldable pub first_free : ℕ → Ipv4Addr → List Ipv4Addr → Option Ipv4Addr
first_free zero ip leased = none
first_free (suc count) ip leased =
    let rest = first_free count (ip + 1) leased in
    if not (contains leased ip) then some ip else rest

-- The loop over the enabled ranges of a subnet.
unfoldable pub free_in_ranges : List DynamicRange → List Ipv4Addr → Option Ipv4Addr
free_in_ranges [] leased = none
free_in_ranges (r ∷ rs) leased =
    if r.enabled
    then elim (first_free (r.range_end + 1 - r.range_start) r.range_start leased) [
      | some ip ↦ some ip
      | none ↦ free_in_ranges rs leased
    ]
    else free_in_ranges rs leased

module _ {S : Type 0} (db : Database S) where
  -- The loop over the subnets that the interface reaches.
  unfoldable pub free_in_subnets :
      List Ipv4Addr → List Subnet → List Ipv4Addr → S → Option (Ipv4Addr × Subnet)
  free_in_subnets iface_ips [] leased s = none
  free_in_subnets iface_ips (subnet ∷ subnets) leased s =
      let rest = free_in_subnets iface_ips subnets leased s in
      if iface_in_subnet iface_ips subnet
      then elim subnet.id [
        | none ↦ rest
        | some i ↦ elim (db.list_ranges (some i) s) [
          | err _ ↦ rest
          | ok ranges ↦ elim (free_in_ranges ranges leased) [
            | some ip ↦ some (ip, subnet)
            | none ↦ rest
          ]
        ]
      ]
      else rest

  module _ (config : Config) (packet : DhcpPacket) (iface_ips : List Ipv4Addr) where
    -- An address that is already the client's, if its subnet is reachable.
    unfoldable pub offer_known : ℕ → Ipv4Addr → S → Flow (Option DhcpPacket)
    offer_known subnet_id ip s = elim (db.get_subnet subnet_id s) [
      | err _ ↦ return none
      | ok none ↦ return none
      | ok (some subnet) ↦
          if iface_in_subnet iface_ips subnet
          then return (some (create_offer packet ip subnet config))
          else go_on
    ]

    unfoldable pub offer_static : S → Flow (Option DhcpPacket)
    offer_static s = elim (db.get_static_ip_by_mac (to_string packet.chaddr) s) [
      | ok (some static_ip) ↦ offer_known static_ip.subnet_id static_ip.ip_address s
      | ok none ↦ go_on
      | err _ ↦ go_on
    ]

    unfoldable pub offer_lease : ℕ → S → Flow (Option DhcpPacket)
    offer_lease now s = elim (db.get_active_lease now (to_string packet.chaddr) s) [
      | ok (some lease) ↦ offer_known lease.subnet_id lease.ip_address s
      | ok none ↦ go_on
      | err _ ↦ go_on
    ]

    unfoldable pub offer_dynamic : ℕ → S → Option DhcpPacket
    offer_dynamic now s = elim (db.list_subnets s) [
      | err _ ↦ none
      | ok subnets ↦ elim (db.list_active_leases now s) [
        | err _ ↦ none
        | ok leases ↦
            elim (free_in_subnets iface_ips subnets (map (λ (l : Lease). l.ip_address) leases) s) [
              | none ↦ none
              | some (ip, subnet) ↦ some (create_offer packet ip subnet config)
            ]
      ]
    ]

    unfoldable pub handle_discover : Clock → S → Option DhcpPacket
    handle_discover clock s = elim (offer_static s) [
      | return response ↦ response
      | go_on ↦ elim (offer_lease clock.first s) [
        | return response ↦ response
        | go_on ↦ offer_dynamic clock.second s
      ]
    ]
