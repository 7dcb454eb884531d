-- ===== src/Dhcp/Honoured.antt =====
-- A client gets the address that it was offered: `handle_request` after `handle_discover`
-- (crates/ndhcpd/src/dhcp/server.rs), over the database of crates/ndhcpd/src/db/memory.rs.
use ndhcpd.Common.{
  ℕ, ◌≤◌, ◌≡◌, ◌≢◌, refl, sym, subst, ap, ◌∙◌, inl, inr, true, none, some, List, ok, In, find,
  find-In, retain, In-retain, Option-cases, ◌==◌, ==_iff, arith,
}
use ndhcpd.Bytes.{Text, Ipv4Addr, to_lowercase, text_eq, text_eq_refl}
use ndhcpd.Config.{Config}
use ndhcpd.Models.{Subnet, DynamicRange, Lease}
use ndhcpd.Db.Interface.{Database, is_active}
use ndhcpd.Db.LeaseLaws.{LeaseLaws}
use ndhcpd.Db.Memory
use ndhcpd.Db.Memory.{InMemoryDatabase, memory}
use ndhcpd.Db.Memory.Calls.{WellFormed}
use ndhcpd.Db.Memory.Leases.{memory_leases}
use ndhcpd.Db.Memory.Tables.{find_by_id}
use ndhcpd.Proto.Mac.{IsMac, to_string}
use ndhcpd.Proto.Mac.RoundTrip.{to_lowercase-to_string}
use ndhcpd.Proto.Packet.{DhcpPacket}
use ndhcpd.Dhcp.Allocate.{Allocatable}
use ndhcpd.Dhcp.Matching.{Matches, Matches-matching_range}
use ndhcpd.Dhcp.Discover.{Clock, handle_discover}
use ndhcpd.Dhcp.Offers.{statically, again, free, handle_discover-Offer}
use ndhcpd.Dhcp.Reply.{create_offer, create_ack, reply}
use ndhcpd.Dhcp.Request.{
  requested_ip, matching_range, make_way, new_lease, grant, request_dynamic, handle_request,
}
use ndhcpd.Dhcp.Exclusive.{FreeFor, is_active_mono}

module _ {S : Type 0} (db : Database S) (laws : LeaseLaws db) where
  open laws use {leases}

  -- Nobody stands in the way of a client that an address is free for.
  make_way_opens :
      (t : ℕ) (mac : Text) (ip : Ipv4Addr) (active : List Lease) (s : S)
      → db.list_active_leases t s ≡ ok active
      → FreeFor t mac ip (leases s)
      → make_way db mac ip active s ≢ none
  unfolding make_way FreeFor
  make_way_opens t mac ip active s listed clear =
      elim (Option-cases (find (λ (l : Lease). l.ip_address == ip) active)) [
        | inl missed ↦ ground (arith, missed)
        | inr (existing, found) ↦
            let (hit, within) = find-In (λ (l : Lease). l.ip_address == ip) active existing found in
            let (row, act) = (laws.list_active t s active existing listed).0 within in
            let owner : existing.mac_address ≡ mac = clear existing row act ((==_iff _ _).0 hit) in
            let same : text_eq existing.mac_address mac ≡ true =
              subst (λ z. text_eq existing.mac_address z ≡ true) owner
                (text_eq_refl existing.mac_address) in
            elim (Option-cases existing.id) [
              | inl no_id ↦ ground (arith, found, same, no_id)
              | inr (i, has) ↦ ground (arith, found, same, has)
            ]
      ]

  -- A range that matches and a free address are enough, where the database does not fail.
  request_dynamic_answered :
      (config : Config) (packet : DhcpPacket) (iface_ips : List Ipv4Addr) (mac : Text)
      (ip : Ipv4Addr) (clock : Clock) (s : S) (ranges : List DynamicRange) (active : List Lease)
      (range : DynamicRange) (subnet : Subnet)
      → db.list_ranges none s ≡ ok ranges
      → Matches db iface_ips ip s ranges range subnet
      → db.list_active_leases clock.first s ≡ ok active
      → FreeFor clock.first mac ip (leases s)
      → ((l : Lease) (s : S) → (i : ℕ) × ((db.create_lease l s).1 ≡ ok i))
      → (q : Subnet) × ((request_dynamic db config packet iface_ips mac ip clock s).1
          ≡ some (create_ack packet ip q config))
  unfolding request_dynamic grant
  request_dynamic_answered config packet iface_ips mac ip clock s ranges active range subnet listed
        m shown clear creates =
      elim (Option-cases (matching_range db iface_ips ip ranges s)) [
        | inl missed ↦
            absurd (Matches-matching_range db iface_ips ip ranges s range subnet m missed)
        | inr ((r, q), matched) ↦ elim (Option-cases (make_way db mac ip active s)) [
          | inl shut ↦ absurd (make_way_opens clock.first mac ip active s shown clear shut)
          | inr (s', way) ↦
              let (i, made) =
                creates (new_lease db config packet iface_ips mac ip r clock.second) s' in
              (q, rw (listed, matched, shown, way, made, request_dynamic, grant) refl)
        ]
      ]

-- Over the database in memory.
module _ (db : InMemoryDatabase) (w : WellFormed db) (config : Config)
    (iface_ips : List Ipv4Addr) where
  -- A range of an allocatable address matches it.
  Allocatable-Matches :
      (ip : Ipv4Addr) (subnet : Subnet)
      → (a : Allocatable memory iface_ips db db.subnets ip subnet)
      → Matches memory iface_ips ip db db.ranges a.range subnet
  unfolding Memory.list_ranges Memory.get_subnet
  Allocatable-Matches ip subnet a =
      let kept : retain (λ (r : DynamicRange). r.subnet_id == a.i) db.ranges ≡ a.ranges =
        ground (arith, a.ranges_of) in
      let (same, row) =
        In-retain (λ (r : DynamicRange). r.subnet_id == a.i) db.ranges a.range
          (subst (In a.range) (sym kept) a.range_listed) in
      let of : a.range.subnet_id ≡ a.i = (==_iff _ _).0 same in
      let found =
        find_by_id (λ (x : Subnet). x.id) db.next_subnet_id db.subnets subnet a.i w.subnets a.listed
          a.has in
      record {
        listed = row;
        enabled = a.in_range.enabled;
        covered = a.in_range.covered;
        subnet_of = rw (of, Memory.get_subnet) (ap ok found);
        reachable = a.reachable;
      }

  -- Over a well-formed database in memory a client without a static address is acknowledged where
  -- it asks for an address of an enabled range of a reachable subnet on which no other client holds
  -- an active lease, whoever has it as a static address.
  pub request_answered :
      (packet : DhcpPacket) (ip : Ipv4Addr) (subnet : Subnet) (clock : Clock)
      → requested_ip packet ≡ some ip
      → Memory.get_static_ip_by_mac (to_lowercase (to_string packet.chaddr)) db ≡ ok none
      → Allocatable memory iface_ips db db.subnets ip subnet
      → FreeFor clock.first (to_lowercase (to_string packet.chaddr)) ip db.leases
      → (q : Subnet) × ((handle_request memory config packet iface_ips clock db).1
          ≡ some (create_ack packet ip q config))
  unfolding memory_leases Memory.list_ranges Memory.list_active_leases Memory.create_lease
      handle_request
  request_answered packet ip subnet clock asked no_static a clear =
      let (q, e) =
        request_dynamic_answered memory memory_leases config packet iface_ips
          (to_lowercase (to_string packet.chaddr)) ip clock db db.ranges
          (retain (is_active clock.first) db.leases) a.range subnet refl
          (Allocatable-Matches ip subnet a) refl clear (λ l s. (s.next_lease_id, refl)) in
      (q, rw (asked, no_static, handle_request) e)

  -- Over a well-formed database in memory the client gets what it was offered: where it has neither
  -- a static address nor an active lease, a REQUEST from its hardware address for the offered
  -- address is acknowledged, at any time from the offer on at which the database is still the same.
  pub offer_honoured :
      (asking asking' : DhcpPacket) (clock clock' : Clock) (r : DhcpPacket)
      → IsMac asking.chaddr
      → Memory.get_static_ip_by_mac (to_string asking.chaddr) db ≡ ok none
      → Memory.get_active_lease clock.first (to_string asking.chaddr) db ≡ ok none
      → handle_discover memory config asking iface_ips clock db ≡ some r
      → asking'.chaddr ≡ asking.chaddr
      → requested_ip asking' ≡ some r.yiaddr
      → clock.second ≤ clock'.first
      → (q : Subnet) × ((handle_request memory config asking' iface_ips clock' db).1
          ≡ some (create_ack asking' r.yiaddr q config))
  unfolding memory_leases Memory.list_subnets FreeFor create_offer reply
  offer_honoured asking asking' clock clock' r mac no_static no_lease offered same asked later =
      let o =
        handle_discover-Offer memory memory_leases config asking iface_ips db clock r offered in
      elim o.basis [
        | statically static_ip e f g ↦ absurd (ground (arith, no_static, e))
        | again lease e _ _ _ f g ↦ absurd (ground (arith, no_lease, e))
        | free subnets e a nobody ↦
            let at_ip : r.yiaddr ≡ o.ip = ap (λ (z : DhcpPacket). z.yiaddr) o.reply in
            let rows : db.subnets ≡ subnets = ground (arith, e) in
            let same_mac : to_lowercase (to_string asking'.chaddr) ≡ to_string asking.chaddr =
              ap (λ m. to_lowercase (to_string m)) same
              ∙ to_lowercase-to_string asking.chaddr mac in
            let (q, answer) =
              request_answered asking' o.ip o.subnet clock' (asked ∙ ap some at_ip)
                (rw same_mac no_static)
                (subst (λ z. Allocatable memory iface_ips db z o.ip o.subnet) (sym rows) a)
                (λ l row act at.
                  absurd
                    (nobody l row (is_active_mono clock.second clock'.first l later act) at)) in
            (q, answer ∙ ap (λ z. some (create_ack asking' z q config)) (sym at_ip))
      ]
