-- ===== src/Dhcp/Kept.antt =====
-- What the DHCP server (crates/ndhcpd/src/dhcp/server.rs) does to a database: it ends leases, and it
-- begins leases of addresses of a range. So it keeps whatever these calls keep, such as that the
-- database of crates/ndhcpd/src/db/memory.rs is well formed.
use ndhcpd.Common.{ℕ, ◌≡◌, subst, inl, inr, some, List, arith, find, Option-cases, ◌==◌}
use ndhcpd.Bytes.{Text, Ipv4Addr}
use ndhcpd.Config.{Config}
use ndhcpd.Models.{Lease}
use ndhcpd.Db.Interface.{Database}
use ndhcpd.Db.LeaseLaws.{Listed}
use ndhcpd.Db.Memory.{InMemoryDatabase, memory}
use ndhcpd.Db.Memory.Calls
use ndhcpd.Db.Memory.Calls.{apply, WellFormed, apply-WellFormed}
use ndhcpd.Dhcp.Discover.{Clock}
use ndhcpd.Dhcp.Matching.{Matches-Listed}
use ndhcpd.Dhcp.Request.{make_way, new_lease, grant, handle_request}
use ndhcpd.Dhcp.Request.Cases.{request_dynamic_cases, handle_request_cases, handle_release_cases}
use ndhcpd.Dhcp.Server.{serve, clean_up}
use ndhcpd.Dhcp.Server.Cases.{handle_packet_cases, serve_cases}
use ndhcpd.Proto.Packet.{DhcpPacket}

module _ {S : Type 0} (db : Database S) (P : S → Type 0)
    (expire : (i : ℕ) (s : S) → P s → P (db.expire_lease i s).0) where
  make_way_keeps :
      (mac : Text) (ip : Ipv4Addr) (active : List Lease) (s s' : S)
      → make_way db mac ip active s ≡ some s'
      → P s
      → P s'
  unfolding make_way
  make_way_keeps mac ip active s s' e p =
      elim (Option-cases (find (λ (l : Lease). l.ip_address == ip) active)) [
        | inl missed ↦ let same : s ≡ s' = ground (arith, missed) in subst P same p
        | inr (existing, found) ↦ elim (Option-cases existing.id) [
          | inl no_id ↦ let same : s ≡ s' = ground (arith, found, no_id) in subst P same p
          | inr (i, has) ↦
              let gone : (db.expire_lease i s).0 ≡ s' = ground (arith, found, has) in
              subst P gone (expire i s p)
        ]
      ]

  module _ (create : (l : Lease) (s : S) → Listed db l.ip_address → P s → P (db.create_lease l s).0)
      (config : Config) (iface_ips : List Ipv4Addr) where
    handle_request_keeps :
        (packet : DhcpPacket) (clock : Clock) (s : S)
        → P s
        → P (handle_request db config packet iface_ips clock s).0
    unfolding grant
    handle_request_keeps packet clock s p =
        handle_request_cases db config packet iface_ips (λ z. P z.0) clock s p
          (λ ip static_ip asked e. p)
          (λ ip asked.
            request_dynamic_cases db config packet iface_ips (λ z. P z.0) _ ip clock s p
              (λ range subnet active s' g.
                create (new_lease db config packet iface_ips _ ip range clock.second) s'
                  (Matches-Listed db iface_ips ip g.ranges s range subnet g.listed g.matched)
                  (make_way_keeps _ ip active s s' g.way p)))

    -- One round of the listen loop, whatever bytes arrive.
    pub serve_keeps :
        (bytes : List ℕ) (iface_name : Text) (clock : Clock) (s : S)
        → P s
        → P (serve db config bytes iface_name iface_ips clock s).0
    serve_keeps bytes iface_name clock s p =
        serve_cases db config iface_ips (λ z. P z.0) bytes iface_name clock s p
          (λ packet listens read.
            handle_packet_cases db config iface_ips (λ z. P z.0) packet clock s p (λ e. p)
              (λ e. handle_request_keeps packet clock s p)
              (λ e.
                handle_release_cases db packet P clock.first s p
                  (λ lease i held has. expire i s p)))

pub serve-WellFormed :
    (config : Config) (iface_ips : List Ipv4Addr) (bytes : List ℕ) (iface_name : Text)
    (clock : Clock) (db : InMemoryDatabase)
    → WellFormed db
    → WellFormed (serve memory config bytes iface_name iface_ips clock db).0
unfolding apply
serve-WellFormed =
    serve_keeps memory WellFormed (λ i. apply-WellFormed (Calls.expire_lease i))
      (λ l s listed. apply-WellFormed (Calls.create_lease l) s)

pub clean_up-WellFormed :
    (now : ℕ) (db : InMemoryDatabase) → WellFormed db → WellFormed (clean_up memory now db)
unfolding apply clean_up
clean_up-WellFormed now db w = apply-WellFormed (Calls.delete_expired_leases now) db w
