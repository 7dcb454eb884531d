-- ===== src/Dhcp/Tests/Honoured.antt =====
-- The sample client asks for the address that it was offered.
use ndhcpd.Common.{◌≡◌, refl, some, [], ◌∷◌, arith, here}
use ndhcpd.Bytes.{ipv4}
use ndhcpd.Config.{default_config}
use ndhcpd.Models.{Subnet}
use ndhcpd.Net.Mask.{mask_of}
use ndhcpd.Db.Memory
use ndhcpd.Db.Memory.{memory}
use ndhcpd.Db.Memory.Calls.{WellFormed}
use ndhcpd.Db.Memory.Tables.{Numbered-empty}
use ndhcpd.Dhcp.Allocate.{Allocatable}
use ndhcpd.Dhcp.Discover.{Clock}
use ndhcpd.Dhcp.Honoured.{request_answered, offer_honoured}
use ndhcpd.Dhcp.Reply.{iface_in_subnet, create_offer, create_ack, reply}
use ndhcpd.Dhcp.Request.{option_ip, requested_ip, handle_request}
use ndhcpd.Dhcp.Exclusive.{FreeFor}
use ndhcpd.Dhcp.Tests.{
  client-IsMac, lan, pool, sample, clock, iface_ips, discover_packet, request_packet, discovered,
}

abbrev later : Clock
later = record { first = 30; second = 40 }

sample-WellFormed : WellFormed sample
sample-WellFormed = record {
  subnets = record {
    ids = (record { i = 1; has = refl; below = omega arith }, tt);
    unique = (tt, tt);
  };
  ranges = record {
    ids = (record { i = 1; has = refl; below = omega arith }, tt);
    unique = (tt, tt);
  };
  leases = Numbered-empty _;
  ia_prefixes = Numbered-empty _;
  tokens = Numbered-empty _;
}

free_address : Allocatable memory iface_ips sample (lan ∷ []) (ipv4 192 168 1 100) lan
unfolding iface_in_subnet mask_of Memory.list_ranges
free_address = record {
  listed = here refl;
  reachable = refl;
  i = 1;
  has = refl;
  ranges = pool ∷ [];
  ranges_of = refl;
  range = pool;
  range_listed = here refl;
  in_range = record { enabled = refl; covered = refl };
}

request_answered_example :
    (q : Subnet) × ((handle_request memory default_config request_packet iface_ips later sample).1
      ≡ some (create_ack request_packet (ipv4 192 168 1 100) q default_config))
unfolding option_ip requested_ip Memory.get_static_ip_by_mac FreeFor
request_answered_example =
    request_answered sample sample-WellFormed default_config iface_ips request_packet
      (ipv4 192 168 1 100) lan later refl refl free_address (λ l row. elim row [ ])

offer_honoured_example :
    (q : Subnet) × ((handle_request memory default_config request_packet iface_ips later sample).1
      ≡ some (create_ack request_packet (ipv4 192 168 1 100) q default_config))
unfolding option_ip requested_ip Memory.get_static_ip_by_mac Memory.get_active_lease create_offer
    reply
offer_honoured_example =
    offer_honoured sample sample-WellFormed default_config iface_ips discover_packet request_packet
      clock later (create_offer discover_packet (ipv4 192 168 1 100) lan default_config)
      client-IsMac refl refl discovered refl refl (omega arith)
