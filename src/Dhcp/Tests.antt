-- ===== src/Dhcp/Tests.antt =====
-- Runs of the DHCP server on small inputs.
mod Replies
mod Honoured
mod Leaving
mod Static
mod Conformance
use ndhcpd.Common.{◌≤◌, ◌/◌, ◌≡◌, refl, true, none, some, List, [], ◌∷◌, ◌++◌, arith, ok, In, here}
use ndhcpd.Bytes.{Ipv4Addr, ipv4, Text, text_eq, to_lowercase}
use ndhcpd.Config.{default_config}
use ndhcpd.Models.{Subnet, DynamicRange, Lease}
use ndhcpd.Net.Mask.{mask_of}
use ndhcpd.Db.Interface.{is_active}
use ndhcpd.Db.Memory
use ndhcpd.Db.Memory.{InMemoryDatabase, memory}
use ndhcpd.Db.Memory.Leases.{memory_leases}
use ndhcpd.Proto.Mac.{IsMac, MacAddress, mac, hex_digit, hex_byte, to_string}
use ndhcpd.Proto.MessageType.{discover, request}
use ndhcpd.Proto.Options.{message_type, requested_ip_address, end}
use ndhcpd.Proto.Packet
use ndhcpd.Proto.Packet.{DhcpPacket}
use ndhcpd.Dhcp.Reply.{iface_in_subnet, create_offer, create_ack, rebinding_of}
use ndhcpd.Dhcp.Discover.{
  Clock, first_free, free_in_ranges, free_in_subnets, offer_static, offer_lease, offer_dynamic,
  handle_discover,
}
use ndhcpd.Dhcp.Request.{
  option_ip, requested_ip, matching_range, make_way, grant, request_dynamic, handle_request,
}
use ndhcpd.Dhcp.Server.{serve}
use ndhcpd.Dhcp.Exclusive.{Exclusive, Exclusive-empty, Exclusive-single}
use ndhcpd.Dhcp.History.{start, then_step, datagram, Reach-Exclusive}
use ndhcpd.Dhcp.Allocate.{Allocatable}
use ndhcpd.Dhcp.Assign.{Acknowledged, handle_request-Acknowledged, handle_request_taken}
use ndhcpd.Dhcp.Offers.{Offer, handle_discover-Offer, handle_discover_exhausted}

abbrev client : MacAddress
client = mac 0xaa 0xbb 0xcc 0 1 2

client-IsMac : IsMac client
client-IsMac = record {
  byte0 = omega arith;
  byte1 = omega arith;
  byte2 = omega arith;
  byte3 = omega arith;
  byte4 = omega arith;
  byte5 = omega arith;
}

abbrev eth0 : Text
eth0 = b'e' ∷ b't' ∷ b'h' ∷ b'0' ∷ []

abbrev iface_ips : List Ipv4Addr
iface_ips = ipv4 192 168 1 1 ∷ []

abbrev lan : Subnet
lan = record {
  id = some 1;
  network = ipv4 192 168 1 0;
  netmask = 24;
  gateway = ipv4 192 168 1 1;
  dns_servers = ipv4 8 8 8 8 ∷ [];
  domain_name = none;
}

-- One address: 192.168.1.100.
abbrev pool : DynamicRange
pool = record {
  id = some 1;
  subnet_id = 1;
  range_start = ipv4 192 168 1 100;
  range_end = ipv4 192 168 1 100;
  enabled = true;
}

abbrev sample : InMemoryDatabase
sample = record Memory.new {
  subnets = lan ∷ [];
  ranges = pool ∷ [];
  next_subnet_id = 2;
  next_range_id = 2;
}

-- The lease of another client.
abbrev held : Lease
held = record {
  id = some 1;
  subnet_id = 1;
  mac_address = b'f' ∷ b'f' ∷ [];
  ip_address = ipv4 192 168 1 100;
  lease_start = 0;
  lease_end = 1000;
  hostname = none;
}

abbrev full : InMemoryDatabase
full = record sample { leases = held ∷ [] }

abbrev clock : Clock
clock = record { first = 10; second = 20 }

abbrev discover_packet : DhcpPacket
discover_packet = record Packet.new {
  xid = 7;
  chaddr = client;
  options = message_type discover ∷ [];
}

abbrev request_packet : DhcpPacket
request_packet = record Packet.new {
  xid = 7;
  chaddr = client;
  options = message_type request ∷ requested_ip_address (ipv4 192 168 1 100) ∷ [];
}

discovered :
    handle_discover memory default_config discover_packet iface_ips clock sample
    ≡ some (create_offer discover_packet (ipv4 192 168 1 100) lan default_config)
unfolding handle_discover offer_static offer_lease offer_dynamic free_in_subnets free_in_ranges
    first_free iface_in_subnet mask_of Memory.get_static_ip_by_mac Memory.get_active_lease
    Memory.list_subnets Memory.list_active_leases Memory.list_ranges
discovered = refl

requested :
    (handle_request memory default_config request_packet iface_ips clock sample).1
    ≡ some (create_ack request_packet (ipv4 192 168 1 100) lan default_config)
unfolding handle_request option_ip requested_ip request_dynamic matching_range make_way grant
    iface_in_subnet mask_of Memory.get_static_ip_by_mac Memory.list_active_leases Memory.list_ranges
    Memory.get_subnet Memory.create_lease
requested = refl

Reach-Exclusive_example :
    Exclusive 20
      (serve memory default_config
        (Packet.to_bytes request_packet)
        eth0
        iface_ips
        clock
        sample).0.leases
unfolding memory_leases
Reach-Exclusive_example =
    Reach-Exclusive memory memory_leases default_config {t = 0} {t' = 20} {s = sample}
      (then_step start (
        datagram (Packet.to_bytes request_packet) eth0 iface_ips clock (omega arith) (omega arith)))
      (Exclusive-empty 0)

handle_request-Acknowledged_example :
    Acknowledged memory memory_leases default_config request_packet iface_ips 20 sample
      (handle_request memory default_config request_packet iface_ips clock sample).0
      (create_ack request_packet (ipv4 192 168 1 100) lan default_config)
handle_request-Acknowledged_example =
    handle_request-Acknowledged memory memory_leases default_config request_packet iface_ips clock
      sample (create_ack request_packet (ipv4 192 168 1 100) lan default_config) requested

handle_request_taken_example :
    handle_request memory default_config request_packet iface_ips clock full ≡ (full, none)
unfolding memory_leases option_ip requested_ip Memory.get_static_ip_by_mac to_string to_lowercase
    hex_byte hex_digit
handle_request_taken_example =
    handle_request_taken memory memory_leases default_config request_packet iface_ips clock full
      (ipv4 192 168 1 100) held (Exclusive-single 10 held) refl refl (here refl) refl refl
      (λ e. ground (arith, e))

handle_discover-Offer_example :
    Offer memory memory_leases default_config discover_packet iface_ips sample clock
      (create_offer discover_packet (ipv4 192 168 1 100) lan default_config)
handle_discover-Offer_example =
    handle_discover-Offer memory memory_leases default_config discover_packet iface_ips sample clock
      (create_offer discover_packet (ipv4 192 168 1 100) lan default_config) discovered

full_answer : handle_discover memory default_config discover_packet iface_ips clock full ≡ none
unfolding handle_discover offer_static offer_lease offer_dynamic free_in_subnets free_in_ranges
    first_free iface_in_subnet mask_of Memory.get_static_ip_by_mac Memory.get_active_lease
    Memory.list_subnets Memory.list_active_leases Memory.list_ranges to_string to_lowercase hex_byte
    hex_digit text_eq
full_answer = refl

last_address : Allocatable memory iface_ips full (lan ∷ []) (ipv4 192 168 1 100) lan
unfolding iface_in_subnet mask_of Memory.list_ranges
last_address = record {
  listed = here refl;
  reachable = refl;
  i = 1;
  has = refl;
  ranges = pool ∷ [];
  ranges_of = refl;
  range = pool;
  range_listed = here refl;
  in_range = record { enabled = refl; covered = refl };
}

handle_discover_exhausted_example :
    (l : Lease) × In l full.leases × (is_active 20 l ≡ true) × (l.ip_address ≡ ipv4 192 168 1 100)
unfolding memory_leases Memory.get_static_ip_by_mac Memory.get_active_lease Memory.list_subnets
    Memory.list_active_leases to_string to_lowercase hex_byte hex_digit text_eq
handle_discover_exhausted_example =
    handle_discover_exhausted memory memory_leases default_config discover_packet iface_ips full
      clock (lan ∷ []) (held ∷ []) (ipv4 192 168 1 100) lan refl refl refl refl full_answer
      last_address
