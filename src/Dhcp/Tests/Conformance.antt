-- ===== src/Dhcp/Tests/Conformance.antt =====
-- The bytes of the sample DISCOVER, through one round of the listen loop.
use ndhcpd.Common.{
  ℕ, ◌≡◌, refl, some, List, [], ◌∷◌, ◌++◌, arith, ok, Bool, true, ◌&&◌, ltb, ltb→lt, All,
  Bool-cases, inl, inr,
}
use ndhcpd.Bytes.{IsByte, ipv4, text_eq}
use ndhcpd.Config.{default_config}
use ndhcpd.Net.Mask.{mask_of}
use ndhcpd.Db.Memory
use ndhcpd.Db.Memory.{memory}
use ndhcpd.Db.Memory.Leases.{memory_leases}
use ndhcpd.Proto.MessageType
use ndhcpd.Proto.Options
use ndhcpd.Proto.Options.{end}
use ndhcpd.Proto.Packet
use ndhcpd.Proto.Packet.{DhcpPacket, get_message_type, first_message_type}
use ndhcpd.Proto.Packet.RoundTrip.{IsPacket, parse-to_bytes}
use ndhcpd.Dhcp.Reply.{iface_in_subnet, create_offer, response_dest}
use ndhcpd.Dhcp.Discover.{
  first_free, free_in_ranges, free_in_subnets, offer_static, offer_lease, offer_dynamic,
  handle_discover,
}
use ndhcpd.Dhcp.Server.{serve, handle_packet, send_response}
use ndhcpd.Dhcp.Conformance.{payload_of, Conforms, serve-Conforms}
use ndhcpd.Dhcp.Received.{AnswersFit, memory-AnswersFit, Received, serve-Received}
use ndhcpd.Dhcp.Tests.{discover_packet, iface_ips, eth0, clock, sample, lan}

discover_packet-IsPacket : IsPacket discover_packet
discover_packet-IsPacket = record {
  xid = omega arith;
  secs = omega arith;
  flags = omega arith;
  ciaddr = omega arith;
  yiaddr = omega arith;
  siaddr = omega arith;
  giaddr = omega arith;
  options = (tt, tt);
}

abbrev arrived : DhcpPacket
arrived = record discover_packet { options = discover_packet.options ++ (end ∷ []) }

abbrev answer : DhcpPacket
answer = create_offer arrived (ipv4 192 168 1 100) lan default_config

read_back : Packet.parse (Packet.to_bytes discover_packet) ≡ ok arrived
read_back = parse-to_bytes discover_packet discover_packet-IsPacket

answered :
    payload_of
      (serve memory default_config (Packet.to_bytes discover_packet) eth0 iface_ips clock sample).1
    ≡ some (Packet.to_bytes answer)
unfolding payload_of serve handle_packet send_response get_message_type first_message_type
    handle_discover offer_static offer_lease offer_dynamic free_in_subnets free_in_ranges first_free
    iface_in_subnet mask_of Memory.get_static_ip_by_mac Memory.get_active_lease Memory.list_subnets
    Memory.list_active_leases Memory.list_ranges text_eq response_dest
answered = rw (read_back, serve) refl

serve-Conforms_example : Conforms (Packet.to_bytes discover_packet) (Packet.to_bytes answer)
serve-Conforms_example =
    serve-Conforms memory memory_leases default_config iface_ips (Packet.to_bytes discover_packet)
      (Packet.to_bytes answer) eth0 clock sample answered

are_bytes : List ℕ → Bool
are_bytes [] = true
are_bytes (b ∷ bs) = ltb b 256 && are_bytes bs

are_bytes-IsByte : (bytes : List ℕ) → are_bytes bytes ≡ true → All IsByte bytes
unfolding are_bytes
are_bytes-IsByte [] h = tt
are_bytes-IsByte (b ∷ bs) h = elim (Bool-cases (ltb b 256)) [
  | inl e ↦ (ltb→lt b 256 e, are_bytes-IsByte bs (ground (arith, h, e)))
  | inr e ↦ absurd (ground (arith, h, e))
]

discover_bytes : are_bytes (Packet.to_bytes discover_packet) ≡ true
unfolding are_bytes Packet.to_bytes Options.to_bytes MessageType.to_u8
discover_bytes = refl

sample-AnswersFit : AnswersFit memory sample
sample-AnswersFit =
    memory-AnswersFit sample
      (
        record {
          gateway = omega arith;
          netmask = omega arith;
          dns_servers = (omega arith, tt);
          few_dns_servers = omega arith;
          domain_name = tt;
        },
        tt,
      )
      (omega arith, tt) tt tt

serve-Received_example : Received (Packet.to_bytes discover_packet) (Packet.to_bytes answer)
serve-Received_example =
    serve-Received memory memory_leases default_config iface_ips sample sample-AnswersFit
      (omega arith) (Packet.to_bytes discover_packet) (Packet.to_bytes answer) eth0 clock
      (are_bytes-IsByte (Packet.to_bytes discover_packet) discover_bytes) answered
