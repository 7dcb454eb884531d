-- ===== src/Dhcp/Request.antt =====
-- `handle_request` and `handle_release` of crates/ndhcpd/src/dhcp/server.rs: how leases begin and
-- end.
pub mod Cases
use ndhcpd.Common.{
  ℕ, ◌+◌, Bool, true, false, ◌&&◌, not, Option, none, some, List, [], ◌∷◌, leb, ◌==◌, if◌then◌else◌,
  find, Result, ok, err,
}
use ndhcpd.Bytes.{Text, Ipv4Addr, unspecified, text_eq, to_lowercase}
use ndhcpd.Config.{Config}
use ndhcpd.Db.Interface.{Database, DbError}
use ndhcpd.Models.{Subnet, DynamicRange, StaticIp, Lease}
use ndhcpd.Proto.Mac.{to_string}
use ndhcpd.Proto.Options.{DhcpOption, requested_ip_address, hostname}
use ndhcpd.Proto.Packet.{DhcpPacket}
use ndhcpd.Dhcp.Discover.{Clock}
use ndhcpd.Dhcp.Reply.{iface_in_subnet, create_ack}

-- The first option 50.
unfoldable pub option_ip : List DhcpOption → Option Ipv4Addr
option_ip [] = none
option_ip (requested_ip_address ip ∷ os) = some ip
option_ip (o ∷ os) = option_ip os

-- The requested address: option 50, or `ciaddr` if it is set.
unfoldable pub requested_ip : DhcpPacket → Option Ipv4Addr
unfolding option_ip
requested_ip packet = elim (option_ip packet.options) [
  | some ip ↦ some ip
  | none ↦ if not (packet.ciaddr == unspecified) then some packet.ciaddr else none
]

-- The first host name option.
unfoldable pub client_hostname : List DhcpOption → Option Text
client_hostname [] = none
client_hostname (hostname h ∷ os) = some h
client_hostname (o ∷ os) = client_hostname os

-- `start <= ip && ip <= end`
abbrev pub covers : DynamicRange → Ipv4Addr → Bool
covers r ip = leb r.range_start ip && leb ip r.range_end

module _ {S : Type 0} (db : Database S) where
  -- The first enabled range that covers the address and whose subnet the interface reaches.
  unfoldable pub matching_range :
      List Ipv4Addr → Ipv4Addr → List DynamicRange → S → Option (DynamicRange × Subnet)
  matching_range iface_ips ip [] s = none
  matching_range iface_ips ip (r ∷ rs) s =
      let rest = matching_range iface_ips ip rs s in
      if r.enabled
      then if covers r ip
        then elim (db.get_subnet r.subnet_id s) [
          | ok (some subnet) ↦ if iface_in_subnet iface_ips subnet then some (r, subnet) else rest
          | ok none ↦ rest
          | err _ ↦ rest
        ]
        else rest
      else rest

  -- `None` where another client holds the address; otherwise the state, without the client's own
  -- lease of it. An error of `expire_lease` is ignored.
  unfoldable pub make_way : Text → Ipv4Addr → List Lease → S → Option S
  make_way mac ip active s = elim (find (λ (l : Lease). l.ip_address == ip) active) [
    | none ↦ some s
    | some existing ↦
        if text_eq existing.mac_address mac
        then elim existing.id [ none ↦ some s | some i ↦ some (db.expire_lease i s).0 ]
        else none
  ]

  unfoldable pub handle_release : DhcpPacket → ℕ → S → S
  handle_release packet now s = elim (db.get_active_lease now (to_string packet.chaddr) s) [
    | ok (some lease) ↦ elim lease.id [ none ↦ s | some i ↦ (db.expire_lease i s).0 ]
    | ok none ↦ s
    | err _ ↦ s
  ]

  module _ (config : Config) (packet : DhcpPacket) (iface_ips : List Ipv4Addr) where
    -- The client has the static address: an ACK for it, on a reachable subnet.
    unfoldable pub ack_static : StaticIp → Ipv4Addr → S → Option DhcpPacket
    ack_static static_ip ip s =
        if static_ip.ip_address == ip
        then elim (db.get_subnet static_ip.subnet_id s) [
          | err _ ↦ none
          | ok none ↦ none
          | ok (some subnet) ↦
              if iface_in_subnet iface_ips subnet
              then some (create_ack packet ip subnet config)
              else none
        ]
        else none

    -- The new lease of a client, from `now` on.
    abbrev pub new_lease : Text → Ipv4Addr → DynamicRange → ℕ → Lease
    new_lease mac ip range now = record {
      id = none;
      subnet_id = range.subnet_id;
      mac_address = mac;
      ip_address = ip;
      lease_start = now;
      lease_end = now + config.dhcp.default_lease_time;
      hostname = client_hostname packet.options;
    }

    -- `create_lease`, and the ACK where it succeeds.
    unfoldable pub grant : Text → Ipv4Addr → DynamicRange → Subnet → ℕ → S → S × Option DhcpPacket
    grant mac ip range subnet now s =
        let (s', created) = db.create_lease (new_lease mac ip range now) s in
        (s', elim created [ ok _ ↦ some (create_ack packet ip subnet config) | err _ ↦ none ])

    unfoldable pub request_dynamic : Text → Ipv4Addr → Clock → S → S × Option DhcpPacket
    request_dynamic mac ip clock s = elim (db.list_ranges none s) [
      | err _ ↦ (s, none)
      | ok ranges ↦ elim (matching_range iface_ips ip ranges s) [
        | none ↦ (s, none)
        | some (range, subnet) ↦ elim (db.list_active_leases clock.first s) [
          | err _ ↦ (s, none)
          | ok active ↦ elim (make_way mac ip active s) [
            | none ↦ (s, none)
            | some s' ↦ grant mac ip range subnet clock.second s'
          ]
        ]
      ]
    ]

    -- A client with a static address gets that one or nothing; any other from the ranges.
    unfoldable pub handle_request : Clock → S → S × Option DhcpPacket
    handle_request clock s =
        let mac = to_lowercase (to_string packet.chaddr) in
        elim (requested_ip packet) [
          | none ↦ (s, none)
          | some ip ↦ elim (db.get_static_ip_by_mac mac s) [
            | ok (some static_ip) ↦ (s, ack_static static_ip ip s)
            | ok none ↦ request_dynamic mac ip clock s
            | err _ ↦ request_dynamic mac ip clock s
          ]
        ]
