-- ===== src/Dhcp/Tests/Static.antt =====
-- The sample client with a static address.
use ndhcpd.Common.{◌≡◌, ◌≢◌, ◌⊎◌, refl, some, none, [], ◌∷◌, In, here, there, arith}
use ndhcpd.Bytes.{ipv4, text_eq, to_lowercase}
use ndhcpd.Config.{default_config}
use ndhcpd.Models.{StaticIp}
use ndhcpd.Net.Mask.{mask_of}
use ndhcpd.Db.Memory.{InMemoryDatabase, memory}
use ndhcpd.Db.Memory.Calls.{WellFormed}
use ndhcpd.Db.Memory.Tables.{Numbered-empty}
use ndhcpd.Proto.Mac.{mac, to_string, hex_byte, hex_digit}
use ndhcpd.Proto.Packet
use ndhcpd.Proto.MessageType.{request}
use ndhcpd.Proto.Options.{message_type, requested_ip_address}
use ndhcpd.Proto.Packet.{DhcpPacket}
use ndhcpd.Dhcp.Discover.{handle_discover}
use ndhcpd.Dhcp.Reply.{iface_in_subnet, create_offer, create_ack}
use ndhcpd.Dhcp.Request.{option_ip, requested_ip, handle_request}
use ndhcpd.Dhcp.Server.{serve, clean_up}
use ndhcpd.Dhcp.Static.{quiet, then_datagram, then_cleanup, Reserves, reservation_kept}
use ndhcpd.Dhcp.Tests.{
  client, client-IsMac, clock, eth0, iface_ips, lan, full, discover_packet, request_packet,
}

-- 192.168.1.50, outside of the range.
abbrev fixed : StaticIp
fixed = record {
  subnet_id = 1;
  mac_address = to_string client;
  ip_address = ipv4 192 168 1 50;
  hostname = none;
}

abbrev with_static : InMemoryDatabase
with_static = record full { static_ips = fixed ∷ []; next_lease_id = 2 }

abbrev request_fixed : DhcpPacket
request_fixed = record request_packet {
  options = message_type request ∷ requested_ip_address (ipv4 192 168 1 50) ∷ [];
}

with_static-WellFormed : WellFormed with_static
with_static-WellFormed = record {
  subnets = record {
    ids = (record { i = 1; has = refl; below = omega arith }, tt);
    unique = (tt, tt);
  };
  ranges = record {
    ids = (record { i = 1; has = refl; below = omega arith }, tt);
    unique = (tt, tt);
  };
  leases = record {
    ids = (record { i = 1; has = refl; below = omega arith }, tt);
    unique = (tt, tt);
  };
  ia_prefixes = Numbered-empty _;
  tokens = Numbered-empty _;
}

fixed-Reserves : Reserves iface_ips client fixed lan with_static
unfolding iface_in_subnet mask_of to_string to_lowercase hex_byte hex_digit text_eq
fixed-Reserves = record {
  row = here refl;
  of_client = refl;
  only = λ y m _. In_single m;
  network = here refl;
  has = refl;
  reached = refl;
}
  where
    In_single : {x y : StaticIp} → In y (x ∷ []) → y ≡ x
    In_single (here e) = e
    In_single (there m) = elim m [ ]

-- Another client asks for an address of the range, and a cleanup follows.
abbrev later : InMemoryDatabase
later =
    clean_up memory 30
      (serve memory default_config
        (Packet.to_bytes (record request_packet { chaddr = mac 2 0 0 0 0 9 })) eth0 iface_ips clock
        with_static).0

reservation_kept_example :
    (handle_discover memory default_config discover_packet iface_ips clock later
      ≡ some (create_offer discover_packet (ipv4 192 168 1 50) lan default_config))
    × (((ipv4 192 168 1 50 ≡ ipv4 192 168 1 50)
          × (handle_request memory default_config request_fixed iface_ips clock later
              ≡ (later, some (create_ack request_fixed (ipv4 192 168 1 50) lan default_config))))
        ⊎ ((ipv4 192 168 1 50 ≢ ipv4 192 168 1 50)
            × (handle_request memory default_config request_fixed iface_ips clock later
                ≡ (later, none))))
unfolding option_ip requested_ip
reservation_kept_example =
    reservation_kept default_config iface_ips with_static later fixed lan discover_packet
      request_fixed clock clock (ipv4 192 168 1 50) with_static-WellFormed client-IsMac
      fixed-Reserves
      (then_cleanup 30 (
        then_datagram (Packet.to_bytes (record request_packet { chaddr = mac 2 0 0 0 0 9 })) eth0
          iface_ips clock quiet))
      refl refl
