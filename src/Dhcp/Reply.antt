-- ===== src/Dhcp/Reply.antt =====
-- The packets that crates/ndhcpd/src/dhcp/server.rs sends, and where to.
use ndhcpd.Common.{
  ℕ, ◌*◌, ◌/◌, ◌%◌, ◌^◌, Bool, not, none, some, List, [], ◌∷◌, ◌==◌, if◌then◌else◌, any, bit_and,
}
use ndhcpd.Bytes.{Ipv4Addr, unspecified, broadcast}
use ndhcpd.Config.{Config}
use ndhcpd.Models.{Subnet}
use ndhcpd.Net.Mask.{mask_of}
use ndhcpd.Proto.MessageType.{offer, ack}
use ndhcpd.Proto.Options.{
  DhcpOption, subnet_mask, router, dns_server, domain_name, lease_time, message_type,
  server_identifier, renewal_time, rebinding_time,
}
use ndhcpd.Proto.Packet
use ndhcpd.Proto.Packet.{DhcpPacket}

abbrev pub dhcp_server_port : ℕ
dhcp_server_port = 67

abbrev pub dhcp_client_port : ℕ
dhcp_client_port = 68

-- True if any address of the interface lies in the subnet.
unfoldable pub iface_in_subnet : List Ipv4Addr → Subnet → Bool
iface_in_subnet iface_ips subnet =
    let mask = mask_of subnet.netmask in
    let net = bit_and subnet.network mask in any (λ ip. bit_and ip mask == net) iface_ips

abbrev pub netmask_from_prefix : ℕ → Ipv4Addr
netmask_from_prefix prefix = mask_of prefix

-- `if let Some(domain) = &subnet.domain_name { … push(DomainName(domain)) }`
abbrev pub domain_options : Subnet → List DhcpOption
domain_options subnet = elim subnet.domain_name [
  | none ↦ []
  | some domain ↦ domain_name domain ∷ []
]

-- The reply to `request` with the given address and options.
unfoldable pub reply : DhcpPacket → Ipv4Addr → Subnet → List DhcpOption → DhcpPacket
reply request ip subnet options = record Packet.new {
  op = 2;
  xid = request.xid;
  yiaddr = ip;
  chaddr = request.chaddr;
  siaddr = subnet.gateway;
  options = options;
}

unfoldable pub create_offer : DhcpPacket → Ipv4Addr → Subnet → Config → DhcpPacket
unfolding reply
create_offer request offered_ip subnet config = reply request offered_ip subnet (
    message_type offer
    ∷ server_identifier subnet.gateway
    ∷ lease_time config.dhcp.default_lease_time
    ∷ subnet_mask (netmask_from_prefix subnet.netmask)
    ∷ router (subnet.gateway ∷ [])
    ∷ dns_server subnet.dns_servers
    ∷ domain_options subnet)

-- `default_lease_time * 7 / 8` on a `u32`, with the wrapping of a release build.
unfoldable pub rebinding_of : ℕ → ℕ
rebinding_of t = t * 7 % 2 ^ 32 / 8

unfoldable pub create_ack : DhcpPacket → Ipv4Addr → Subnet → Config → DhcpPacket
unfolding reply
create_ack request assigned_ip subnet config = reply request assigned_ip subnet (
    message_type ack
    ∷ server_identifier subnet.gateway
    ∷ lease_time config.dhcp.default_lease_time
    ∷ renewal_time (config.dhcp.default_lease_time / 2)
    ∷ rebinding_time (rebinding_of config.dhcp.default_lease_time)
    ∷ subnet_mask (netmask_from_prefix subnet.netmask)
    ∷ router (subnet.gateway ∷ [])
    ∷ dns_server subnet.dns_servers
    ∷ domain_options subnet)

-- A `SocketAddr` of IPv4.
pub record SocketAddr : Type 0 where
  pub ip : Ipv4Addr
  pub port : ℕ

unfoldable pub response_dest : DhcpPacket → DhcpPacket → SocketAddr
response_dest request response =
    if not (request.giaddr == unspecified)
    then record { ip = request.giaddr; port = dhcp_server_port }
    else if not (request.ciaddr == unspecified)
    then record { ip = request.ciaddr; port = dhcp_client_port }
    else if not (bit_and request.flags 0x8000 == 0)
    then record { ip = broadcast; port = dhcp_client_port }
    else record { ip = response.yiaddr; port = dhcp_client_port }
