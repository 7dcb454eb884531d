-- ===== src/Dhcp/Assign.antt =====
-- What an answer to a REQUEST means (`handle_request` of crates/ndhcpd/src/dhcp/server.rs): who gets
-- an ACK, for which address, and who gets none.
use ndhcpd.Common.{
  ℕ, ◌+◌, ◌≡◌, ◌≢◌, refl, ◌∙◌, inl, inr, true, none, some, List, ok, In, Option-cases, Bool-cases,
  Result-cases, ◌==◌, ==_iff, arith,
}
use ndhcpd.Bytes.{Text, Ipv4Addr, to_lowercase}
use ndhcpd.Config.{Config}
use ndhcpd.Models.{Subnet, DynamicRange, StaticIp, Lease}
use ndhcpd.Db.Interface.{Database, is_active}
use ndhcpd.Db.LeaseLaws.{LeaseLaws}
use ndhcpd.Proto.Mac.{to_string}
use ndhcpd.Proto.Packet.{DhcpPacket}
use ndhcpd.Dhcp.Discover.{Clock}
use ndhcpd.Dhcp.Reply.{iface_in_subnet, create_ack}
use ndhcpd.Dhcp.Request.{requested_ip, ack_static, new_lease, grant, handle_request}
use ndhcpd.Dhcp.Request.Cases.{Grants, request_dynamic_cases, handle_request_cases}
use ndhcpd.Dhcp.Exclusive.{Exclusive, FreeFor}
use ndhcpd.Dhcp.Safety.{make_way_free}
use ndhcpd.Dhcp.Matching.{Matches, matching_range-Matches, Matches-Listed}

module _ {S : Type 0} (db : Database S) (iface_ips : List Ipv4Addr) where
  -- What an ACK for `ip` rests on: the client's static address, or a lease that is in the table.
  pub data Assigned (mac : Text) (config : Config) (now : ℕ) (rows : List Lease) (s : S)
      (ip : Ipv4Addr) (subnet : Subnet) : Type 0 where
    statically :
        (static_ip : StaticIp)
        → db.get_static_ip_by_mac mac s ≡ ok (some static_ip)
        → static_ip.ip_address ≡ ip
        → db.get_subnet static_ip.subnet_id s ≡ ok (some subnet)
        → iface_in_subnet iface_ips subnet ≡ true
        → Assigned mac config now rows s ip subnet
    leased :
        (ranges : List DynamicRange) (range : DynamicRange) (lease : Lease)
        → db.list_ranges none s ≡ ok ranges
        → Matches db iface_ips ip s ranges range subnet
        → In lease rows
        → lease.mac_address ≡ mac
        → lease.ip_address ≡ ip
        → lease.lease_end ≡ now + config.dhcp.default_lease_time
        → Assigned mac config now rows s ip subnet

module _ {S : Type 0} (db : Database S) (laws : LeaseLaws db) (config : Config)
    (packet : DhcpPacket) (iface_ips : List Ipv4Addr) where
  open laws use {leases}

  -- `r` is the ACK for the requested address, and the client has that address.
  pub record Acknowledged (now : ℕ) (s s' : S) (r : DhcpPacket) : Type 0 where
    pub ip : Ipv4Addr
    pub subnet : Subnet
    pub asked : requested_ip packet ≡ some ip
    pub reply : r ≡ create_ack packet ip subnet config
    pub assigned :
        Assigned db iface_ips
          (to_lowercase (to_string packet.chaddr))
          config
          now
          (leases s')
          s
          ip
          subnet

  ack_static-Acknowledged :
      (now : ℕ) (s : S) (r : DhcpPacket) (ip : Ipv4Addr) (static_ip : StaticIp)
      → requested_ip packet ≡ some ip
      → db.get_static_ip_by_mac (to_lowercase (to_string packet.chaddr)) s ≡ ok (some static_ip)
      → ack_static db config packet iface_ips static_ip ip s ≡ some r
      → Acknowledged now s s r
  unfolding ack_static
  ack_static-Acknowledged now s r ip static_ip asked found e =
      elim (Bool-cases (static_ip.ip_address == ip)) [
        | inr other ↦ absurd (ground (arith, other))
        | inl same ↦ elim (Result-cases (db.get_subnet static_ip.subnet_id s)) [
          | inr (_, g) ↦ absurd (ground (arith, same, g))
          | inl (answer, g) ↦ elim (Option-cases answer) [
            | inl n ↦ absurd (ground (arith, same, g, n))
            | inr (subnet, f) ↦ elim (Bool-cases (iface_in_subnet iface_ips subnet)) [
              | inr out ↦ absurd (ground (arith, same, g, f, out))
              | inl reach ↦ record {
                ip = ip;
                subnet = subnet;
                asked = asked;
                reply = ground (arith, same, g, f, reach);
                assigned = statically static_ip found ((==_iff _ _).0 same) (rw f at g) reach;
              }
            ]
          ]
        ]
      ]

  grant-Acknowledged :
      (ip : Ipv4Addr) (clock : Clock) (s : S) (r : DhcpPacket) (range : DynamicRange)
      (subnet : Subnet) (active : List Lease) (s' : S)
      → requested_ip packet ≡ some ip
      → Grants db config packet iface_ips
          (to_lowercase (to_string packet.chaddr))
          ip
          clock
          s
          range
          subnet
          active
          s'
      → (grant db config packet iface_ips
          (to_lowercase (to_string packet.chaddr))
          ip
          range
          subnet
          clock.second
          s').1
        ≡ some r
      → Acknowledged clock.second s
          (grant db config packet iface_ips
            (to_lowercase (to_string packet.chaddr))
            ip
            range
            subnet
            clock.second
            s').0
          r
  unfolding grant
  grant-Acknowledged ip clock s r range subnet active s' asked g e =
      let mac = to_lowercase (to_string packet.chaddr) in
      let lease = new_lease db config packet iface_ips mac ip range clock.second in
      elim (Result-cases (db.create_lease lease s').1) [
        | inr (_, f) ↦ absurd (ground (arith, f))
        | inl (i, f) ↦
            let (row, listed, same) =
              laws.created lease s' i
                (Matches-Listed db iface_ips ip g.ranges s range subnet g.listed g.matched) f in
            record {
              ip = ip;
              subnet = subnet;
              asked = asked;
              reply = ground (arith, f);
              assigned =
                  leased g.ranges range row g.listed
                    (matching_range-Matches db iface_ips ip g.ranges s range subnet g.matched)
                    listed same.mac_address same.ip_address same.lease_end;
            }
      ]

  -- Over a database that meets the lease laws, a REQUEST is acknowledged only for the address it
  -- asks for, and only if that address is the client's static one on a subnet the interface
  -- reaches, or an enabled range of such a subnet covers it and the table now holds the client's
  -- lease of it until the lease time from now.
  pub handle_request-Acknowledged :
      (clock : Clock) (s : S) (r : DhcpPacket)
      → (handle_request db config packet iface_ips clock s).1 ≡ some r
      → Acknowledged clock.second s (handle_request db config packet iface_ips clock s).0 r
  handle_request-Acknowledged clock s r =
      handle_request_cases db config packet iface_ips
        (λ z. z.1 ≡ some r → Acknowledged clock.second s z.0 r) clock s (λ e. cc)
        (λ ip static_ip asked found.
          ack_static-Acknowledged clock.second s r ip static_ip asked found)
        (λ ip asked.
          request_dynamic_cases db config packet iface_ips
            (λ z. z.1 ≡ some r → Acknowledged clock.second s z.0 r)
            (to_lowercase (to_string packet.chaddr)) ip clock s (λ e. cc)
            (λ range subnet active s' g.
              grant-Acknowledged ip clock s r range subnet active s' asked g))

  -- Over a database that meets the lease laws, a REQUEST by a client without a static address, for
  -- an address that is actively leased to another client in an exclusive table, is not answered and
  -- changes nothing.
  pub handle_request_taken :
      (clock : Clock) (s : S) (ip : Ipv4Addr) (lease : Lease)
      → Exclusive clock.first (leases s)
      → requested_ip packet ≡ some ip
      → db.get_static_ip_by_mac (to_lowercase (to_string packet.chaddr)) s ≡ ok none
      → In lease (leases s)
      → is_active clock.first lease ≡ true
      → lease.ip_address ≡ ip
      → lease.mac_address ≢ to_lowercase (to_string packet.chaddr)
      → handle_request db config packet iface_ips clock s ≡ (s, none)
  unfolding FreeFor
  handle_request_taken clock s ip lease ex asked no_static row active at_ip other =
      handle_request_cases db config packet iface_ips (λ z. z ≡ (s, none)) clock s refl
        (λ ip' static_ip asked' found. absurd (ground (arith, no_static, found)))
        (λ ip' asked'.
          let same_ip : ip ≡ ip' = ground (arith, asked, asked') in
          request_dynamic_cases db config packet iface_ips (λ z. z ≡ (s, none))
            (to_lowercase (to_string packet.chaddr)) ip' clock s refl
            (λ range subnet active_leases s' g. absurd (
              other (
                make_way_free db laws clock.first _ ip' active_leases s s' g.active_listed ex g.way
                  lease row active (at_ip ∙ same_ip)))))
