-- ===== src/Dhcp/Request/Cases.antt =====
-- The ways through `handle_request` of crates/ndhcpd/src/dhcp/server.rs, each with what the database
-- answered on it.
use ndhcpd.Common.{ℕ, ◌≡◌, inl, inr, Option, none, some, List, ok, Option-cases, Result-cases}
use ndhcpd.Bytes.{Text, Ipv4Addr, to_lowercase}
use ndhcpd.Config.{Config}
use ndhcpd.Models.{Subnet, DynamicRange, StaticIp, Lease}
use ndhcpd.Db.Interface.{Database}
use ndhcpd.Proto.Mac.{to_string}
use ndhcpd.Proto.Packet.{DhcpPacket}
use ndhcpd.Dhcp.Discover.{Clock}
use ndhcpd.Dhcp.Request.{
  requested_ip, matching_range, make_way, ack_static, grant, request_dynamic, handle_request,
  handle_release,
}

module _ {S : Type 0} (db : Database S) (config : Config) (packet : DhcpPacket)
    (iface_ips : List Ipv4Addr) where
  -- What is known when a lease is granted from the state `s'`.
  pub record Grants (mac : Text) (ip : Ipv4Addr) (clock : Clock) (s : S) (range : DynamicRange)
      (subnet : Subnet) (active : List Lease) (s' : S) : Type 0 where
    pub ranges : List DynamicRange
    pub listed : db.list_ranges none s ≡ ok ranges
    pub matched : matching_range db iface_ips ip ranges s ≡ some (range, subnet)
    pub active_listed : db.list_active_leases clock.first s ≡ ok active
    pub way : make_way db mac ip active s ≡ some s'

  pub request_dynamic_cases {ℓ} :
      (P : S × Option DhcpPacket → Type ℓ) (mac : Text) (ip : Ipv4Addr) (clock : Clock) (s : S)
      → P (s, none)
      → ((range : DynamicRange) (subnet : Subnet) (active : List Lease) (s' : S)
          → Grants mac ip clock s range subnet active s'
          → P (grant db config packet iface_ips mac ip range subnet clock.second s'))
      → P (request_dynamic db config packet iface_ips mac ip clock s)
  unfolding request_dynamic
  request_dynamic_cases P mac ip clock s refused granted =
      elim (Result-cases (db.list_ranges none s)) [
        | inr (_, e) ↦ rw (e, request_dynamic) refused
        | inl (ranges, listed) ↦ elim (Option-cases (matching_range db iface_ips ip ranges s)) [
          | inl e ↦ rw (listed, e, request_dynamic) refused
          | inr ((range, subnet), matched) ↦
              elim (Result-cases (db.list_active_leases clock.first s)) [
                | inr (_, e) ↦ rw (listed, matched, e, request_dynamic) refused
                | inl (active, shown) ↦ elim (Option-cases (make_way db mac ip active s)) [
                  | inl e ↦ rw (listed, matched, shown, e, request_dynamic) refused
                  | inr (s', way) ↦
                      rw (listed, matched, shown, way, request_dynamic)
                        (granted range subnet active s' (record {
                          ranges = ranges;
                          listed = listed;
                          matched = matched;
                          active_listed = shown;
                          way = way;
                        }))
                ]
              ]
        ]
      ]

  pub handle_request_cases {ℓ} :
      (P : S × Option DhcpPacket → Type ℓ) (clock : Clock) (s : S)
      → P (s, none)
      → ((ip : Ipv4Addr) (static_ip : StaticIp)
          → requested_ip packet ≡ some ip
          → db.get_static_ip_by_mac (to_lowercase (to_string packet.chaddr)) s ≡ ok (some static_ip)
          → P (s, ack_static db config packet iface_ips static_ip ip s))
      → ((ip : Ipv4Addr)
          → requested_ip packet ≡ some ip
          → P (
              request_dynamic db config packet iface_ips
                (to_lowercase (to_string packet.chaddr))
                ip
                clock
                s))
      → P (handle_request db config packet iface_ips clock s)
  unfolding handle_request
  handle_request_cases P clock s refused static dynamic =
      let mac = to_lowercase (to_string packet.chaddr) in
      elim (Option-cases (requested_ip packet)) [
        | inl e ↦ rw (e, handle_request) refused
        | inr (ip, asked) ↦ elim (Result-cases (db.get_static_ip_by_mac mac s)) [
          | inr (_, e) ↦ rw (asked, e, handle_request) (dynamic ip asked)
          | inl (answer, e) ↦ elim (Option-cases answer) [
            | inl f ↦ rw (asked, e, f, handle_request) (dynamic ip asked)
            | inr (static_ip, f) ↦
                rw (asked, e, f, handle_request) (static ip static_ip asked (rw f at e))
          ]
        ]
      ]

module _ {S : Type 0} (db : Database S) (packet : DhcpPacket) where
  pub handle_release_cases {ℓ} :
      (P : S → Type ℓ) (now : ℕ) (s : S)
      → P s
      → ((lease : Lease) (i : ℕ)
          → db.get_active_lease now (to_string packet.chaddr) s ≡ ok (some lease)
          → lease.id ≡ some i
          → P (db.expire_lease i s).0)
      → P (handle_release db packet now s)
  unfolding handle_release
  handle_release_cases P now s kept expired =
      elim (Result-cases (db.get_active_lease now (to_string packet.chaddr) s)) [
        | inr (_, e) ↦ rw (e, handle_release) kept
        | inl (answer, e) ↦ elim (Option-cases answer) [
          | inl f ↦ rw (e, f, handle_release) kept
          | inr (lease, f) ↦ elim (Option-cases lease.id) [
            | inl g ↦ rw (e, f, g, handle_release) kept
            | inr (i, g) ↦ rw (e, f, g, handle_release) (expired lease i (rw f at e) g)
          ]
        ]
      ]
