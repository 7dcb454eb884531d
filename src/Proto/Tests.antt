-- ===== src/Proto/Tests.antt =====
-- Runs of the packet library on small inputs.
use ndhcpd.Common.{ℕ, ◌≡◌, ◌↔◌, some, List, [], ◌∷◌, ◌++◌, arith, ok}
use ndhcpd.Bytes.{ipv4}
use ndhcpd.Proto.Mac.{MacAddress, IsMac, mac, to_string, from_string}
use ndhcpd.Proto.Mac.RoundTrip.{from_string-to_string}
use ndhcpd.Proto.MessageType.{request}
use ndhcpd.Proto.Utf8.{nil, one}
use ndhcpd.Proto.Options.{message_type, requested_ip_address, hostname, end}
use ndhcpd.Proto.Packet
use ndhcpd.Proto.Packet.{DhcpPacket, parse_options, packet_too_small}
use ndhcpd.Proto.Packet.RoundTrip.{parse-to_bytes}
use ndhcpd.Proto.Packet.Parsing.{Reads, parse_options_exact}
use ndhcpd.Proto.Packet.Checked.{parse_checked}
use ndhcpd.Proto.Packet.Checked.Laws.{parse_checked-parse}

abbrev client : MacAddress
client = mac 0xaa 0xbb 0xcc 0 1 2

client-IsMac : IsMac client
client-IsMac = record {
  byte0 = omega arith;
  byte1 = omega arith;
  byte2 = omega arith;
  byte3 = omega arith;
  byte4 = omega arith;
  byte5 = omega arith;
}

abbrev request_packet : DhcpPacket
request_packet = record Packet.new {
  xid = 7;
  chaddr = client;
  options =
      message_type request ∷ requested_ip_address (ipv4 192 168 1 100) ∷ hostname (b'p' ∷ []) ∷ [];
}

from_string-to_string_example : from_string (to_string client) ≡ some client
from_string-to_string_example = from_string-to_string client client-IsMac

parse-to_bytes_example :
    Packet.parse (Packet.to_bytes request_packet)
    ≡ ok (record request_packet { options = request_packet.options ++ (end ∷ []) })
parse-to_bytes_example = parse-to_bytes request_packet (record {
  xid = omega arith;
  secs = omega arith;
  flags = omega arith;
  ciaddr = omega arith;
  yiaddr = omega arith;
  siaddr = omega arith;
  giaddr = omega arith;
  options = (tt, (omega arith, ((one (omega arith) nil, omega arith), tt)));
})

parse_options_exact_example :
    (parse_options 6 (0 ∷ 53 ∷ 1 ∷ 3 ∷ 255 ∷ 9 ∷ []) ≡ message_type request ∷ end ∷ [])
    ↔ Reads (0 ∷ 53 ∷ 1 ∷ 3 ∷ 255 ∷ 9 ∷ []) (message_type request ∷ end ∷ [])
parse_options_exact_example =
    parse_options_exact 6 (0 ∷ 53 ∷ 1 ∷ 3 ∷ 255 ∷ 9 ∷ []) (message_type request ∷ end ∷ [])
      (omega arith)

-- An option that claims more bytes than the packet has.
abbrev cut_short : List ℕ
cut_short = Packet.to_bytes Packet.new ++ (53 ∷ 1 ∷ 3 ∷ 12 ∷ 200 ∷ 7 ∷ [])

parse_checked-parse_example : parse_checked cut_short ≡ some (Packet.parse cut_short)
parse_checked-parse_example = parse_checked-parse cut_short
