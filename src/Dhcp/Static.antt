-- ===== src/Dhcp/Static.antt =====
-- Clients with a static address, in `handle_discover` and `handle_request` of
-- crates/ndhcpd/src/dhcp/server.rs, over the database of crates/ndhcpd/src/db/memory.rs.
use ndhcpd.Common.{
  ℕ, ◌≡◌, ◌≢◌, refl, sym, subst, ◌∙◌, ap, ◌⊎◌, inl, inr, true, none, some, ok, ◌==◌, ==_iff, List,
  Bool-cases, In, find, find-In, find-none, Option-cases, arith,
}
use ndhcpd.Bytes.{Text, Ipv4Addr, to_lowercase}
use ndhcpd.Config.{Config}
use ndhcpd.Models.{Subnet, StaticIp}
use ndhcpd.Db.Interface.{Database}
use ndhcpd.Db.Memory
use ndhcpd.Db.Memory.{InMemoryDatabase, memory, same_mac}
use ndhcpd.Db.Memory.Calls.{WellFormed}
use ndhcpd.Db.Memory.Tables.{find_by_id}
use ndhcpd.Proto.Mac.{MacAddress, IsMac, to_string}
use ndhcpd.Proto.Mac.RoundTrip.{to_lowercase-to_string}
use ndhcpd.Proto.Packet.{DhcpPacket}
use ndhcpd.Dhcp.Discover.{Clock, offer_known, offer_static, handle_discover}
use ndhcpd.Dhcp.Kept.{serve_keeps, serve-WellFormed, clean_up-WellFormed}
use ndhcpd.Dhcp.Reply.{iface_in_subnet, create_offer, create_ack}
use ndhcpd.Dhcp.Request.{requested_ip, ack_static, handle_request}
use ndhcpd.Dhcp.Server.{serve, clean_up}

module _ {S : Type 0} (db : Database S) (config : Config) (iface_ips : List Ipv4Addr) (s : S)
    (static_ip : StaticIp) (subnet : Subnet)
    (known : db.get_subnet static_ip.subnet_id s ≡ ok (some subnet))
    (reach : iface_in_subnet iface_ips subnet ≡ true) where
  discover_static :
      (asking : DhcpPacket) (clock : Clock)
      → db.get_static_ip_by_mac (to_string asking.chaddr) s ≡ ok (some static_ip)
      → handle_discover db config asking iface_ips clock s
        ≡ some (create_offer asking static_ip.ip_address subnet config)
  unfolding handle_discover offer_static offer_known
  discover_static asking clock found =
      rw (found, known, reach, handle_discover, offer_static, offer_known) refl

  request_static :
      (asking : DhcpPacket) (clock : Clock) (ip : Ipv4Addr)
      → db.get_static_ip_by_mac (to_lowercase (to_string asking.chaddr)) s ≡ ok (some static_ip)
      → requested_ip asking ≡ some ip
      → ((ip ≡ static_ip.ip_address)
          × (handle_request db config asking iface_ips clock s
              ≡ (s, some (create_ack asking ip subnet config))))
        ⊎ ((ip ≢ static_ip.ip_address)
            × (handle_request db config asking iface_ips clock s ≡ (s, none)))
  unfolding handle_request ack_static
  request_static asking clock ip found asked = elim (Bool-cases (static_ip.ip_address == ip)) [
    | inl same ↦ inl (
      sym ((==_iff _ _).0 same),
      rw (asked, found, same, known, reach, handle_request, ack_static) refl,
    )
    | inr differ ↦ inr (
      λ e. absurd (ground (arith, differ, (==_iff static_ip.ip_address ip).1 (sym e))),
      rw (asked, found, differ, handle_request, ack_static) refl,
    )
  ]

-- The database after any datagrams, of any clients on any interfaces, and cleanups.
pub data Traffic (config : Config) (db : InMemoryDatabase) : InMemoryDatabase → Type 0 where
  quiet : Traffic config db db
  then_datagram :
      {db' : InMemoryDatabase} (bytes : List ℕ) (iface_name : Text) (iface_ips : List Ipv4Addr)
      (clock : Clock)
      → Traffic config db db'
      → Traffic config db (serve memory config bytes iface_name iface_ips clock db').0
  then_cleanup :
      {db' : InMemoryDatabase} (now : ℕ)
      → Traffic config db db'
      → Traffic config db (clean_up memory now db')

-- The tables of `db'` that the administrator fills are those of `db`.
record SameSetup (db db' : InMemoryDatabase) : Type 0 where
  well_formed : WellFormed db'
  static_ips : db'.static_ips ≡ db.static_ips
  subnets : db'.subnets ≡ db.subnets

Traffic-SameSetup :
    (config : Config) (db db' : InMemoryDatabase)
    → WellFormed db
    → Traffic config db db'
    → SameSetup db db'
unfolding Memory.expire_lease Memory.create_lease clean_up Memory.delete_expired_leases
Traffic-SameSetup config db db' w quiet = record {
  well_formed = w;
  static_ips = refl;
  subnets = refl;
}
Traffic-SameSetup config db _ w
      (then_datagram {db' = db'} bytes iface_name iface_ips clock before) =
    let same = Traffic-SameSetup config db db' w before in
    let kept =
      serve_keeps memory
        (λ (z : InMemoryDatabase). (z.static_ips ≡ db.static_ips) × (z.subnets ≡ db.subnets))
        (λ i s p. p) (λ l s listed p. p) config iface_ips bytes iface_name clock db'
        (same.static_ips, same.subnets) in
    record {
      well_formed = serve-WellFormed config iface_ips bytes iface_name clock db' same.well_formed;
      static_ips = kept.0;
      subnets = kept.1;
    }
Traffic-SameSetup config db _ w (then_cleanup {db' = db'} now before) =
    let same = Traffic-SameSetup config db db' w before in
    record {
      well_formed = clean_up-WellFormed now db' same.well_formed;
      static_ips = same.static_ips;
      subnets = same.subnets;
    }

-- The row `x` reserves its address to the hardware address `m`, of which the table has no other row,
-- on a stored subnet that the interface reaches.
pub record Reserves (iface_ips : List Ipv4Addr) (m : MacAddress) (x : StaticIp) (subnet : Subnet)
    (db : InMemoryDatabase) : Type 0 where
  pub row : In x db.static_ips
  pub of_client : same_mac (to_string m) x.mac_address ≡ true
  pub only :
      (y : StaticIp) → In y db.static_ips → same_mac (to_string m) y.mac_address ≡ true → y ≡ x
  pub network : In subnet db.subnets
  pub has : subnet.id ≡ some x.subnet_id
  pub reached : iface_in_subnet iface_ips subnet ≡ true

found_row :
    (iface_ips : List Ipv4Addr) (m : MacAddress) (x : StaticIp) (subnet : Subnet)
    (db : InMemoryDatabase)
    → Reserves iface_ips m x subnet db
    → find (λ (s : StaticIp). same_mac (to_string m) s.mac_address) db.static_ips ≡ some x
found_row iface_ips m x subnet db r =
    let p = λ (s : StaticIp). same_mac (to_string m) s.mac_address in
    elim (Option-cases (find p db.static_ips)) [
      | inl missed ↦ absurd (ground (arith, find-none p db.static_ips x missed r.row, r.of_client))
      | inr (y, found) ↦
          let (hit, k) = find-In p db.static_ips y found in found ∙ ap some (r.only y k hit)
    ]

-- In a well-formed database in memory, a row reserves an address to a hardware address, which no
-- other row has in any case of its letters, on a stored subnet that the interface reaches. Whatever
-- datagrams of any clients and cleanups then follow, in any order, a DISCOVER of this client is
-- offered that address, and a REQUEST of it for some address is acknowledged if that is the one,
-- left unanswered if it is another, and changes nothing in either case.
pub reservation_kept :
    (config : Config) (iface_ips : List Ipv4Addr) (db db' : InMemoryDatabase) (x : StaticIp)
    (subnet : Subnet) (asking asking' : DhcpPacket) (clock clock' : Clock) (ip : Ipv4Addr)
    → WellFormed db
    → IsMac asking.chaddr
    → Reserves iface_ips asking.chaddr x subnet db
    → Traffic config db db'
    → asking'.chaddr ≡ asking.chaddr
    → requested_ip asking' ≡ some ip
    → (handle_discover memory config asking iface_ips clock db'
        ≡ some (create_offer asking x.ip_address subnet config))
      × (((ip ≡ x.ip_address)
            × (handle_request memory config asking' iface_ips clock' db'
                ≡ (db', some (create_ack asking' ip subnet config))))
          ⊎ ((ip ≢ x.ip_address)
              × (handle_request memory config asking' iface_ips clock' db' ≡ (db', none))))
unfolding Memory.get_static_ip_by_mac Memory.get_subnet
reservation_kept config iface_ips db db' x subnet asking asking' clock clock' ip w mac r run same
      asked =
    let setup = Traffic-SameSetup config db db' w run in
    let found : Memory.get_static_ip_by_mac (to_string asking.chaddr) db' ≡ ok (some x) =
      rw setup.static_ips (ap ok (found_row iface_ips asking.chaddr x subnet db r)) in
    let known : Memory.get_subnet x.subnet_id db' ≡ ok (some subnet) = rw setup.subnets (
      ap ok (
        find_by_id (λ (s : Subnet). s.id) db.next_subnet_id db.subnets subnet x.subnet_id w.subnets
          r.network r.has)) in
    let folded : to_string asking.chaddr ≡ to_lowercase (to_string asking'.chaddr) =
      sym (ap (λ m. to_lowercase (to_string m)) same ∙ to_lowercase-to_string asking.chaddr mac) in
    (
      discover_static memory config iface_ips db' x subnet known r.reached asking clock found,
      request_static memory config iface_ips db' x subnet known r.reached asking' clock' ip
          (subst (λ t. Memory.get_static_ip_by_mac t db' ≡ ok (some x)) folded found) asked,
    )
