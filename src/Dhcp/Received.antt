-- ===== src/Dhcp/Received.antt =====
-- What a client reads from the bytes that the listen loop of crates/ndhcpd/src/dhcp/server.rs sends.
use ndhcpd.Common.{
  ℕ, ◌≡◌, refl, sym, subst, inl, inr, none, some, Option, Result, List, [], ◌∷◌, ◌++◌, ok, In, All,
  arith, Option-cases, All-In, find-In, In-retain,
}
use ndhcpd.Bytes.{Text, Ipv4Addr, IsByte, IsU32}
use ndhcpd.Config.{Config}
use ndhcpd.Models.{Subnet, DynamicRange, StaticIp, Lease}
use ndhcpd.Db.Interface.{Database, DbError}
use ndhcpd.Db.Memory
use ndhcpd.Db.Memory.{InMemoryDatabase, memory}
use ndhcpd.Db.LeaseLaws.{LeaseLaws}
use ndhcpd.Proto.MessageType.{discover, request}
use ndhcpd.Proto.Options.{end}
use ndhcpd.Proto.Packet
use ndhcpd.Proto.Packet.{DhcpPacket, get_message_type, first_message_type}
use ndhcpd.Proto.Packet.Bounds.{parse-IsHeader}
use ndhcpd.Proto.Packet.RoundTrip.{parse-to_bytes}
use ndhcpd.Dhcp.Assign.{Assigned, statically, leased, handle_request-Acknowledged}
use ndhcpd.Dhcp.Conformance.{payload_of, payload-send_response, Replies}
use ndhcpd.Dhcp.Discover.{Clock}
use ndhcpd.Dhcp.Offers
use ndhcpd.Dhcp.Offers.{Basis, handle_discover-Offer}
use ndhcpd.Dhcp.Replies.{IsServed, create_offer-IsPacket, create_ack-IsPacket}
use ndhcpd.Dhcp.Reply.{create_offer, create_ack, reply}
use ndhcpd.Dhcp.Server.{serve, handle_packet}
use ndhcpd.Dhcp.Server.Cases.{handle_packet_cases, serve_cases}

-- What the database answers fits the fields of a reply.
pub record AnswersFit {S : Type 0} (db : Database S) (s : S) : Type 0 where
  pub subnet : (i : ℕ) (x : Subnet) → db.get_subnet i s ≡ ok (some x) → IsServed x
  pub listed_subnet :
      (xs : List Subnet) (x : Subnet) → db.list_subnets s ≡ ok xs → In x xs → IsServed x
  pub range :
      (i : Option ℕ) (xs : List DynamicRange) (x : DynamicRange)
      → db.list_ranges i s ≡ ok xs
      → In x xs
      → IsU32 x.range_end
  pub static_ip :
      (mac : Text) (x : StaticIp) → db.get_static_ip_by_mac mac s ≡ ok (some x) → IsU32 x.ip_address
  pub lease :
      (now : ℕ) (mac : Text) (x : Lease)
      → db.get_active_lease now mac s ≡ ok (some x)
      → IsU32 x.ip_address

-- The database in memory answers the rows of its tables.
pub memory-AnswersFit :
    (db : InMemoryDatabase)
    → All IsServed db.subnets
    → All (λ (x : DynamicRange). IsU32 x.range_end) db.ranges
    → All (λ (x : StaticIp). IsU32 x.ip_address) db.static_ips
    → All (λ (x : Lease). IsU32 x.ip_address) db.leases
    → AnswersFit memory db
unfolding Memory.get_subnet Memory.list_subnets Memory.list_ranges Memory.get_static_ip_by_mac
    Memory.get_active_lease
memory-AnswersFit db subnets ranges static_ips leases = record {
  subnet = λ i x h. All-In IsServed db.subnets x subnets (find-In _ db.subnets x (same h)).1;
  listed_subnet = λ xs x h m. All-In IsServed db.subnets x subnets (subst (In x) (sym (same h)) m);
  range = range;
  static_ip = λ mac x h. All-In _ db.static_ips x static_ips (find-In _ db.static_ips x (same h)).1;
  lease = λ now mac x h. All-In _ db.leases x leases (find-In _ db.leases x (same h)).1;
}
  where
    same : {A : Type 0} {a b : A} → ◌≡◌ {A = Result DbError A} (ok a) (ok b) → a ≡ b
    same h = cc

    range :
        (i : Option ℕ) (xs : List DynamicRange) (x : DynamicRange)
        → Memory.list_ranges i db ≡ ok xs
        → In x xs
        → IsU32 x.range_end
    range none xs x h m = All-In _ db.ranges x ranges (subst (In x) (sym (same h)) m)
    range (some i) xs x h m =
        All-In _ db.ranges x ranges (In-retain _ db.ranges x (subst (In x) (sym (same h)) m)).1

-- A client that parses the payload finds a reply to the packet that was received.
pub record Received (bytes payload : List ℕ) : Type 0 where
  pub packet : DhcpPacket
  pub response : DhcpPacket
  pub sent : Packet.parse bytes ≡ ok packet
  pub read : Packet.parse payload ≡ ok response
  pub replies : Replies packet response

-- The reply is read from its bytes, with the `end` option behind its own.
record ReadsAs (packet r : DhcpPacket) : Type 0 where
  pub read : Packet.parse (Packet.to_bytes r) ≡ ok (record r { options = r.options ++ (end ∷ []) })
  pub replies : Replies packet (record r { options = r.options ++ (end ∷ []) })

module _ {S : Type 0} (db : Database S) (laws : LeaseLaws db) (config : Config)
    (iface_ips : List Ipv4Addr) (s : S) (fit : AnswersFit db s)
    (lease_fits : IsU32 config.dhcp.default_lease_time) where
  offered :
      (packet : DhcpPacket) (clock : Clock) (ip : Ipv4Addr) (subnet : Subnet)
      → Basis db laws config packet iface_ips s clock ip subnet
      → IsU32 ip × IsServed subnet
  offered packet clock ip subnet (Offers.statically x found same of) =
      (subst IsU32 same (fit.static_ip _ x found), fit.subnet _ subnet of)
  offered packet clock ip subnet (Offers.again x found _ _ _ same of) =
      (subst IsU32 same (fit.lease _ _ x found), fit.subnet _ subnet of)
  offered packet clock ip subnet (Offers.free subnets listed a fresh) =
      let bound = fit.range (some a.i) a.ranges a.range a.ranges_of a.range_listed in
      (ground (arith, bound, a.in_range.covered), fit.listed_subnet subnets subnet listed a.listed)

  assigned :
      (mac : Text) (now : ℕ) (rows : List Lease) (ip : Ipv4Addr) (subnet : Subnet)
      → Assigned db iface_ips mac config now rows s ip subnet
      → IsU32 ip × IsServed subnet
  assigned mac now rows ip subnet (statically x found same of reach) =
      (subst IsU32 same (fit.static_ip _ x found), fit.subnet _ subnet of)
  assigned mac now rows ip subnet (leased ranges range l listed m _ _ _ _) =
      let bound = fit.range none ranges range listed m.listed in
      (ground (arith, bound, m.covered), fit.subnet _ subnet m.subnet_of)

  offer-ReadsAs :
      (packet r : DhcpPacket) (ip : Ipv4Addr) (subnet : Subnet)
      → get_message_type packet ≡ some discover
      → IsU32 packet.xid
      → IsU32 ip × IsServed subnet
      → r ≡ create_offer packet ip subnet config
      → ReadsAs packet r
  unfolding create_offer reply get_message_type first_message_type
  offer-ReadsAs packet r ip subnet asked xid (address, served) e = rw e (record {
    read =
        parse-to_bytes _
          (create_offer-IsPacket packet ip subnet config xid address served lease_fits);
    replies = record { op = refl; xid = refl; chaddr = refl; kind = inl (asked, refl) };
  })

  ack-ReadsAs :
      (packet r : DhcpPacket) (ip : Ipv4Addr) (subnet : Subnet)
      → get_message_type packet ≡ some request
      → IsU32 packet.xid
      → IsU32 ip × IsServed subnet
      → r ≡ create_ack packet ip subnet config
      → ReadsAs packet r
  unfolding create_ack reply get_message_type first_message_type
  ack-ReadsAs packet r ip subnet asked xid (address, served) e = rw e (record {
    read =
        parse-to_bytes _
          (create_ack-IsPacket packet ip subnet config xid address served lease_fits);
    replies = record { op = refl; xid = refl; chaddr = refl; kind = inr (asked, refl) };
  })

  handle_packet-ReadsAs :
      (packet : DhcpPacket) (clock : Clock) (r : DhcpPacket)
      → IsU32 packet.xid
      → (handle_packet db config packet iface_ips clock s).1 ≡ some r
      → ReadsAs packet r
  handle_packet-ReadsAs packet clock r xid =
      handle_packet_cases db config iface_ips (λ z. z.1 ≡ some r → ReadsAs packet r) packet clock s
        (λ e. cc)
        (λ asked e.
          let o = handle_discover-Offer db laws config packet iface_ips s clock r e in
          offer-ReadsAs packet r o.ip o.subnet asked xid
            (offered packet clock o.ip o.subnet o.basis) o.reply)
        (λ asked e.
          let a = handle_request-Acknowledged db laws config packet iface_ips clock s r e in
          ack-ReadsAs packet r a.ip a.subnet asked xid (assigned _ _ _ a.ip a.subnet a.assigned)
            a.reply)
        (λ asked e. cc)

  -- Over a database that meets the lease laws, whatever bytes arrive, a client that parses what is
  -- sent finds a reply to the packet that they hold: with op 2, its transaction and its hardware
  -- address, an OFFER for a DISCOVER and an ACK for a REQUEST. The subnets and addresses that the
  -- database answers fit the fields of a reply, and the lease time is below 2^32.
  pub serve-Received :
      (bytes payload : List ℕ) (iface_name : Text) (clock : Clock)
      → All IsByte bytes
      → payload_of (serve db config bytes iface_name iface_ips clock s).1 ≡ some payload
      → Received bytes payload
  unfolding payload_of
  serve-Received bytes payload iface_name clock are_bytes =
      serve_cases db config iface_ips (λ z. payload_of z.1 ≡ some payload → Received bytes payload)
        bytes iface_name clock s (λ e. cc)
        (λ packet listens sent.
          elim (Option-cases (handle_packet db config packet iface_ips clock s).1) [
            | inl e ↦ rw e (λ h. cc)
            | inr (r, e) ↦ rw e (λ h.
                let header = parse-IsHeader bytes packet are_bytes sent in
                let as' = handle_packet-ReadsAs packet clock r header.xid e in
                let written : Packet.to_bytes r ≡ payload =
                  ground (arith, h, payload-send_response packet r iface_name iface_ips) in
                record {
                  packet = packet;
                  response = record r { options = r.options ++ (end ∷ []) };
                  sent = sent;
                  read =
                      subst
                        (λ z. Packet.parse z ≡ ok (record r { options = r.options ++ (end ∷ []) }))
                        written as'.read;
                  replies = as'.replies;
                })
          ])
