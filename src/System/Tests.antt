-- ===== src/System/Tests.antt =====
-- A short run of the daemon: a subnet and a range are created, then a client asks for an address.
use ndhcpd.Common.{Bool, true, false, Option, none, some, [], ◌∷◌, arith}
use ndhcpd.Bytes.{Text, ipv4, text_eq}
use ndhcpd.Config.{default_config, default_ra_config}
use ndhcpd.Models.{Subnet, DynamicRange}
use ndhcpd.Db.Memory
use ndhcpd.Db.Memory.{InMemoryDatabase, memory}
use ndhcpd.Db.Memory.Calls.{WellFormed}
use ndhcpd.Auth.{Request}
use ndhcpd.Proto.Mac.{mac}
use ndhcpd.Proto.MessageType.{request}
use ndhcpd.Proto.Options.{message_type, requested_ip_address}
use ndhcpd.Proto.Packet
use ndhcpd.Proto.Packet.{DhcpPacket}
use ndhcpd.Dhcp.Discover.{Clock}
use ndhcpd.Dhcp.Exclusive.{Exclusive}
use ndhcpd.Dhcp.Server.{serve}
use ndhcpd.Handlers.Routes.{create_subnet, create_range, dispatch}
use ndhcpd.System.{fresh, then_request, then_datagram, Run-Sound}

-- A hash that keeps the password, in place of Argon2.
abbrev pub parse_hash : Text → Option Text
parse_hash hash = some hash

abbrev pub verify_password : Text → Text → Bool
verify_password token hash = text_eq token hash

abbrev pub local : Request
local = record { connection = none; authorization = none }

abbrev pub lan : Subnet
lan = record {
  id = none;
  network = ipv4 192 168 1 0;
  netmask = 24;
  gateway = ipv4 192 168 1 1;
  dns_servers = [];
  domain_name = none;
}

abbrev pub pool : DynamicRange
pool = record {
  id = none;
  subnet_id = 1;
  range_start = ipv4 192 168 1 100;
  range_end = ipv4 192 168 1 199;
  enabled = true;
}

abbrev pub asking : DhcpPacket
asking = record Packet.new {
  chaddr = mac 0xaa 0xbb 0xcc 0 1 2;
  options = message_type request ∷ requested_ip_address (ipv4 192 168 1 100) ∷ [];
}

abbrev pub clock : Clock
clock = record { first = 10; second = 11 }

abbrev configured : InMemoryDatabase
configured =
    (dispatch parse_hash verify_password memory default_ra_config 6 false local (create_range pool)
      (dispatch parse_hash verify_password memory default_ra_config 5 false local
        (create_subnet lan) Memory.new).0).0

abbrev served : InMemoryDatabase
served =
    (serve memory default_config (Packet.to_bytes asking) (b'e' ∷ b't' ∷ b'h' ∷ b'0' ∷ [])
      (ipv4 192 168 1 1 ∷ []) clock configured).0

Run-Sound_example : WellFormed served × Exclusive 11 served.leases
Run-Sound_example =
    Run-Sound parse_hash verify_password default_config default_ra_config {t = 11} {db = served} (
      then_datagram (Packet.to_bytes asking) (b'e' ∷ b't' ∷ b'h' ∷ b'0' ∷ [])
        (ipv4 192 168 1 1 ∷ []) clock (omega arith) (omega arith)
        (then_request 6 false local (create_range pool) (omega arith) tt
          (then_request 5 false local (create_subnet lan) (omega arith) tt fresh)))
