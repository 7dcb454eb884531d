-- ===== src/Dhcp/Safety.antt =====
-- No address is leased to two clients: an invariant of the lease table over every history of
-- datagrams, lease cleanups and configuration changes, for each database that meets `LeaseLaws`.
use ndhcpd.Common.{
  ℕ, ◌≤◌, ◌≡◌, sym, subst, ◌∙◌, inl, inr, some, List, ok, In, find, find-In, find-none, arith, ◌==◌,
  ==_iff, Bool-cases, Option-cases,
}
use ndhcpd.Bytes.{Text, Ipv4Addr, text_eq, text_eq→eq, to_lowercase}
use ndhcpd.Config.{Config}
use ndhcpd.Models.{Subnet, DynamicRange, Lease}
use ndhcpd.Db.Interface.{Database}
use ndhcpd.Db.LeaseLaws.{LeaseLaws, Listed}
use ndhcpd.Proto.Mac.{to_string}
use ndhcpd.Proto.Packet.{DhcpPacket}
use ndhcpd.Dhcp.Discover.{Clock}
use ndhcpd.Dhcp.Request.{
  make_way, new_lease, grant, request_dynamic, handle_request, handle_release,
}
use ndhcpd.Dhcp.Matching.{Matches-Listed}
use ndhcpd.Dhcp.Request.Cases.{request_dynamic_cases, handle_request_cases, handle_release_cases}
use ndhcpd.Dhcp.Server.Cases.{handle_packet_cases, serve_cases}
use ndhcpd.Dhcp.Server.{handle_packet, serve, clean_up}
use ndhcpd.Dhcp.Exclusive.{Exclusive, Exclusive-mono, FreeFor, FreeFor-mono, Exclusive-insert}

module _ {S : Type 0} (db : Database S) (laws : LeaseLaws db) where
  open laws use {leases}

  make_way_rows :
      (mac : Text) (ip : Ipv4Addr) (active : List Lease) (s s' : S)
      → make_way db mac ip active s ≡ some s'
      → (l : Lease) → In l (leases s')
      → In l (leases s)
  unfolding make_way
  make_way_rows mac ip active s s' e l m =
      elim (Option-cases (find (λ (l : Lease). l.ip_address == ip) active)) [
        | inl missed ↦ let kept : s ≡ s' = ground (arith, missed) in unchanged kept
        | inr (existing, found) ↦ elim (Option-cases existing.id) [
          | inl no_id ↦ let kept : s ≡ s' = ground (arith, found, no_id) in unchanged kept
          | inr (i, has) ↦
              let gone : (db.expire_lease i s).0 ≡ s' = ground (arith, found, has) in
              laws.expire i s l (subst (λ z. In l (leases z)) (sym gone) m)
        ]
      ]
    where
      unchanged : s ≡ s' → In l (leases s)
      unchanged e = subst (λ z. In l (leases z)) (sym e) m

  make_way_owner :
      (mac : Text) (ip : Ipv4Addr) (active : List Lease) (s s' : S) (existing : Lease)
      → find (λ (l : Lease). l.ip_address == ip) active ≡ some existing
      → make_way db mac ip active s ≡ some s'
      → existing.mac_address ≡ mac
  unfolding make_way
  make_way_owner mac ip active s s' existing found e =
      elim (Bool-cases (text_eq existing.mac_address mac)) [
        | inl same ↦ text_eq→eq _ _ same
        | inr other ↦ absurd (ground (arith, found, other))
      ]

  -- `make_way` lets a client through only if the address is free for it.
  pub make_way_free :
      (t : ℕ) (mac : Text) (ip : Ipv4Addr) (active : List Lease) (s s' : S)
      → db.list_active_leases t s ≡ ok active
      → Exclusive t (leases s)
      → make_way db mac ip active s ≡ some s'
      → FreeFor t mac ip (leases s)
  unfolding FreeFor Exclusive
  make_way_free t mac ip active s s' listed ex e l m a same =
      elim (Option-cases (find (λ (l : Lease). l.ip_address == ip) active)) [
        | inl missed ↦ absurd (
            ground (
              arith,
              find-none (λ (l : Lease). l.ip_address == ip) active l missed
                  ((laws.list_active t s active l listed).1 (m, a)),
            ))
        | inr (existing, found) ↦
            let (hit, within) = find-In (λ (l : Lease). l.ip_address == ip) active existing found in
            let (row, act) = (laws.list_active t s active existing listed).0 within in
            ex l existing m row a act (same ∙ sym ((==_iff _ _).0 hit))
            ∙ make_way_owner mac ip active s s' existing found e
      ]

  -- A granted lease keeps the table exclusive.
  grant-Exclusive :
      (config : Config) (packet : DhcpPacket) (iface_ips : List Ipv4Addr) (mac : Text)
      (ip : Ipv4Addr) (range : DynamicRange) (subnet : Subnet) (now : ℕ) (s : S)
      → Exclusive now (leases s)
      → FreeFor now mac ip (leases s)
      → Listed db ip
      → Exclusive now (leases (grant db config packet iface_ips mac ip range subnet now s).0)
  unfolding grant
  grant-Exclusive config packet iface_ips mac ip range subnet now s ex free listed =
      let lease = new_lease db config packet iface_ips mac ip range now in
      Exclusive-insert now (leases s) (leases (db.create_lease lease s).0) lease ex free
        (λ l'. laws.create lease s l' listed)

  module _ (config : Config) (packet : DhcpPacket) (iface_ips : List Ipv4Addr) where
    request_dynamic-Exclusive :
        (mac : Text) (ip : Ipv4Addr) (clock : Clock) (s : S)
        → clock.first ≤ clock.second
        → Exclusive clock.first (leases s)
        → Exclusive clock.second
            (leases (request_dynamic db config packet iface_ips mac ip clock s).0)
    request_dynamic-Exclusive mac ip clock s k ex =
        request_dynamic_cases db config packet iface_ips (λ r. Exclusive clock.second (leases r.0))
          mac ip clock s
          (Exclusive-mono clock.first clock.second (leases s) (leases s) k (λ l m. m) ex)
          (λ range subnet active s' g.
            let rows = make_way_rows mac ip active s s' g.way in
            grant-Exclusive config packet iface_ips mac ip range subnet clock.second s'
              (Exclusive-mono clock.first clock.second (leases s) (leases s') k rows ex)
              (FreeFor-mono clock.first clock.second mac ip (leases s) (leases s') k rows
                (make_way_free clock.first mac ip active s s' g.active_listed ex g.way))
              (Matches-Listed db iface_ips ip g.ranges s range subnet g.listed g.matched))

    handle_request-Exclusive :
        (clock : Clock) (s : S)
        → clock.first ≤ clock.second
        → Exclusive clock.first (leases s)
        → Exclusive clock.second (leases (handle_request db config packet iface_ips clock s).0)
    handle_request-Exclusive clock s k ex =
        let later = Exclusive-mono clock.first clock.second (leases s) (leases s) k (λ l m. m) ex in
        handle_request_cases db config packet iface_ips (λ r. Exclusive clock.second (leases r.0))
          clock s later (λ ip static_ip asked e. later)
          (λ ip asked.
            request_dynamic-Exclusive (to_lowercase (to_string packet.chaddr)) ip clock s k ex)

    handle_release_rows :
        (now : ℕ) (s : S) (l : Lease)
        → In l (leases (handle_release db packet now s))
        → In l (leases s)
    handle_release_rows now s l m =
        handle_release_cases db packet (λ z. In l (leases z) → In l (leases s)) now s (λ m. m)
          (λ lease i e f. laws.expire i s l) m

    handle_packet-Exclusive :
        (clock : Clock) (s : S)
        → clock.first ≤ clock.second
        → Exclusive clock.first (leases s)
        → Exclusive clock.second (leases (handle_packet db config packet iface_ips clock s).0)
    handle_packet-Exclusive clock s k ex =
        let later = Exclusive-mono clock.first clock.second (leases s) in
        handle_packet_cases db config iface_ips (λ r. Exclusive clock.second (leases r.0)) packet
          clock s (later (leases s) k (λ l m. m) ex) (λ e. later (leases s) k (λ l m. m) ex)
          (λ e. handle_request-Exclusive clock s k ex)
          (λ e. later _ k (handle_release_rows clock.first s) ex)

  -- One datagram keeps the table exclusive.
  pub serve-Exclusive :
      (config : Config) (bytes : List ℕ) (iface_name : Text) (iface_ips : List Ipv4Addr)
      (clock : Clock) (s : S)
      → clock.first ≤ clock.second
      → Exclusive clock.first (leases s)
      → Exclusive clock.second (leases (serve db config bytes iface_name iface_ips clock s).0)
  serve-Exclusive config bytes iface_name iface_ips clock s k ex =
      serve_cases db config iface_ips (λ r. Exclusive clock.second (leases r.0)) bytes iface_name
        clock s (Exclusive-mono clock.first clock.second (leases s) (leases s) k (λ l m. m) ex)
        (λ packet e f. handle_packet-Exclusive config packet iface_ips clock s k ex)

  pub clean_up-Exclusive :
      (now : ℕ) (s : S) → Exclusive now (leases s) → Exclusive now (leases (clean_up db now s))
  unfolding clean_up
  clean_up-Exclusive now s ex =
      Exclusive-mono now now (leases s) _ (omega arith) (laws.delete_expired now s) ex
