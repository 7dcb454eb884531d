-- ===== src/Dhcp/Replies.antt =====
-- The replies of crates/ndhcpd/src/dhcp/server.rs on the wire: what a client reads from the bytes of
-- an OFFER or an ACK, and the timers an ACK sets.
use ndhcpd.Common.{
  ◌*◌, Option, none, some, ℕ, ◌/◌, ◌≤◌, ◌≡◌, refl, List, [], ◌∷◌, ◌++◌, arith, length, All, ok,
}
use ndhcpd.Bytes.{Ipv4Addr, IsU32}
use ndhcpd.Config.{Config}
use ndhcpd.Models.{Subnet}
use ndhcpd.Net.Mask.{mask_of-IsU32}
use ndhcpd.Proto.Options.{
  DhcpOption, end, router, dns_server, lease_time, renewal_time, rebinding_time,
}
use ndhcpd.Proto.Options.RoundTrip.{IsSendable}
use ndhcpd.Proto.Packet
use ndhcpd.Proto.Packet.{DhcpPacket}
use ndhcpd.Proto.Packet.RoundTrip.{IsPacket, parse-to_bytes}
use ndhcpd.Dhcp.Reply.{create_offer, create_ack, reply, domain_options, rebinding_of}

-- A subnet whose parameters fit the options of a reply.
pub record IsServed (subnet : Subnet) : Type 0 where
  pub gateway : IsU32 subnet.gateway
  pub netmask : subnet.netmask ≤ 32
  pub dns_servers : All IsU32 subnet.dns_servers
  pub few_dns_servers : length subnet.dns_servers ≤ 63
  pub domain_name : All IsSendable (domain_options subnet)

module _ (request : DhcpPacket) (ip : Ipv4Addr) (subnet : Subnet) (config : Config)
    (xid : IsU32 request.xid) (address : IsU32 ip) (served : IsServed subnet)
    (lease_fits : IsU32 config.dhcp.default_lease_time) where
  reply-IsPacket :
      (options : List DhcpOption)
      → All IsSendable options
      → IsPacket (reply request ip subnet options)
  unfolding reply
  reply-IsPacket options h = record {
    xid = xid;
    secs = omega arith;
    flags = omega arith;
    ciaddr = omega arith;
    yiaddr = address;
    siaddr = served.gateway;
    giaddr = omega arith;
    options = h;
  }

  addresses :
      All IsSendable
        (router (subnet.gateway ∷ []) ∷ dns_server subnet.dns_servers ∷ domain_options subnet)
  addresses = (
    ((served.gateway, tt), omega arith),
    ((served.dns_servers, served.few_dns_servers), served.domain_name),
  )

  pub create_offer-IsPacket : IsPacket (create_offer request ip subnet config)
  unfolding create_offer
  create_offer-IsPacket =
      reply-IsPacket _
        (tt, (served.gateway, (lease_fits, (mask_of-IsU32 subnet.netmask, addresses))))

  pub create_ack-IsPacket : IsPacket (create_ack request ip subnet config)
  unfolding create_ack rebinding_of
  create_ack-IsPacket = reply-IsPacket _ (
    tt,
    (
      served.gateway,
      (
        lease_fits,
        (omega (arith, lease_fits), (omega arith, (mask_of-IsU32 subnet.netmask, addresses))),
      ),
    ),
  )

  -- A client that reads the bytes of an OFFER or of an ACK finds the reply as it was built, with
  -- the same transaction, hardware address and offered address, and the `end` option after the
  -- others, where the parameters fit their fields.
  pub replies_read :
      (Packet.parse (Packet.to_bytes (create_offer request ip subnet config))
        ≡ ok (record (create_offer request ip subnet config) {
          options = (create_offer request ip subnet config).options ++ (end ∷ []);
        }))
      × (Packet.parse (Packet.to_bytes (create_ack request ip subnet config))
          ≡ ok (record (create_ack request ip subnet config) {
            options = (create_ack request ip subnet config).options ++ (end ∷ []);
          }))
  replies_read = (parse-to_bytes _ create_offer-IsPacket, parse-to_bytes _ create_ack-IsPacket)

timers_ordered : (t : ℕ) → t ≤ 613566756 → (t / 2 ≤ rebinding_of t) × (rebinding_of t ≤ t)
unfolding rebinding_of
timers_ordered t h = (omega arith, omega arith)

rebinding_exact : (t : ℕ) → t ≤ 613566756 → rebinding_of t ≡ 7 * t / 8
unfolding rebinding_of
rebinding_exact t h = omega arith

-- What a client takes for the lease time, for T1 and for T2: the first option of each kind.
pub lease_time_in : List DhcpOption → Option ℕ
lease_time_in [] = none
lease_time_in (lease_time t ∷ os) = some t
lease_time_in (o ∷ os) = lease_time_in os

pub renewal_time_in : List DhcpOption → Option ℕ
renewal_time_in [] = none
renewal_time_in (renewal_time t ∷ os) = some t
renewal_time_in (o ∷ os) = renewal_time_in os

pub rebinding_time_in : List DhcpOption → Option ℕ
rebinding_time_in [] = none
rebinding_time_in (rebinding_time t ∷ os) = some t
rebinding_time_in (o ∷ os) = rebinding_time_in os

-- A client that parses the bytes reads this lease time, half of it as T1 and seven eighths as T2, and
-- T1 is at most T2 and T2 at most the lease time.
pub record Timers (lease : ℕ) (bytes : List ℕ) : Type 0 where
  pub packet : DhcpPacket
  pub t1 : ℕ
  pub t2 : ℕ
  pub read : Packet.parse bytes ≡ ok packet
  pub has_lease : lease_time_in packet.options ≡ some lease
  pub has_t1 : renewal_time_in packet.options ≡ some t1
  pub has_t2 : rebinding_time_in packet.options ≡ some t2
  pub half : t1 ≡ lease / 2
  pub seven_eighths : t2 ≡ 7 * lease / 8
  pub t1_first : t1 ≤ t2
  pub t2_first : t2 ≤ lease

-- A client that parses the bytes of an ACK reads the configured lease time, half of it as T1 and
-- seven eighths of it as T2, and T1 is at most T2 and T2 at most the lease time. The lease time is
-- at most 613566756 seconds, the transaction id and the address are below 2^32, and the subnet's
-- parameters fit a reply.
pub create_ack-Timers :
    (request : DhcpPacket) (ip : Ipv4Addr) (subnet : Subnet) (config : Config)
    → IsU32 request.xid
    → IsU32 ip
    → IsServed subnet
    → config.dhcp.default_lease_time ≤ 613566756
    → Timers config.dhcp.default_lease_time (Packet.to_bytes (create_ack request ip subnet config))
unfolding create_ack reply lease_time_in renewal_time_in rebinding_time_in
create_ack-Timers request ip subnet config xid address served short =
    let (first, second) = timers_ordered config.dhcp.default_lease_time short in
    record {
      packet = record (create_ack request ip subnet config) {
        options = (create_ack request ip subnet config).options ++ (end ∷ []);
      };
      t1 = config.dhcp.default_lease_time / 2;
      t2 = rebinding_of config.dhcp.default_lease_time;
      read =
          parse-to_bytes _ (
            create_ack-IsPacket request ip subnet config xid address served (omega (arith, short)));
      has_lease = refl;
      has_t1 = refl;
      has_t2 = refl;
      half = refl;
      seven_eighths = rebinding_exact config.dhcp.default_lease_time short;
      t1_first = first;
      t2_first = second;
    }

-- One second more and the multiplication wraps: T2 is 0, below T1.
pub timers_wrap : rebinding_of 613566757 ≡ 0
unfolding rebinding_of
timers_wrap = refl
