-- ===== src/Dhcp/Conformance.antt =====
-- What kind of packet answers a datagram (`listen_loop` of crates/ndhcpd/src/dhcp/server.rs), by the
-- table of messages of RFC 2131.
use ndhcpd.Common.{
  ℕ, ◌≡◌, refl, inl, inr, ◌⊎◌, none, some, Option, List, ok, arith, Option-cases, Bool-cases, ◌==◌,
  ◌&&◌,
}
use ndhcpd.Bytes.{Text, Ipv4Addr, unspecified}
use ndhcpd.Config.{Config}
use ndhcpd.Models.{Subnet}
use ndhcpd.Db.Interface.{Database}
use ndhcpd.Db.LeaseLaws.{LeaseLaws}
use ndhcpd.Proto.MessageType.{discover, offer, request, ack}
use ndhcpd.Proto.Packet
use ndhcpd.Proto.Packet.{DhcpPacket, get_message_type, first_message_type}
use ndhcpd.Dhcp.Assign.{handle_request-Acknowledged}
use ndhcpd.Dhcp.Discover.{Clock}
use ndhcpd.Dhcp.Offers.{handle_discover-Offer}
use ndhcpd.Dhcp.Reply.{create_offer, create_ack, reply}
use ndhcpd.Dhcp.Server.{Sent, nothing, raw_l2, datagram, send_response, serve, handle_packet}
use ndhcpd.Dhcp.Server.Cases.{handle_packet_cases, serve_cases}

-- The bytes that are sent.
unfoldable pub payload_of : Sent → Option (List ℕ)
payload_of nothing = none
payload_of (raw_l2 iface src dst payload) = some payload
payload_of (datagram is_broadcast dest payload) = some payload

-- A reply to the packet: op 2, with its transaction and its hardware address, an OFFER for a
-- DISCOVER and an ACK for a REQUEST.
pub record Replies (packet response : DhcpPacket) : Type 0 where
  pub op : response.op ≡ 2
  pub xid : response.xid ≡ packet.xid
  pub chaddr : response.chaddr ≡ packet.chaddr
  pub kind :
      ((get_message_type packet ≡ some discover) × (get_message_type response ≡ some offer))
      ⊎ ((get_message_type packet ≡ some request) × (get_message_type response ≡ some ack))

-- The payload is a reply to the packet that was received.
pub record Conforms (bytes payload : List ℕ) : Type 0 where
  pub packet : DhcpPacket
  pub response : DhcpPacket
  pub read : Packet.parse bytes ≡ ok packet
  pub written : payload ≡ Packet.to_bytes response
  pub replies : Replies packet response

create_offer-Replies :
    (packet : DhcpPacket) (ip : Ipv4Addr) (subnet : Subnet) (config : Config) (r : DhcpPacket)
    → get_message_type packet ≡ some discover
    → r ≡ create_offer packet ip subnet config
    → Replies packet r
unfolding create_offer reply get_message_type first_message_type
create_offer-Replies packet ip subnet config r asked e =
    rw e (record { op = refl; xid = refl; chaddr = refl; kind = inl (asked, refl) })

create_ack-Replies :
    (packet : DhcpPacket) (ip : Ipv4Addr) (subnet : Subnet) (config : Config) (r : DhcpPacket)
    → get_message_type packet ≡ some request
    → r ≡ create_ack packet ip subnet config
    → Replies packet r
unfolding create_ack reply get_message_type first_message_type
create_ack-Replies packet ip subnet config r asked e =
    rw e (record { op = refl; xid = refl; chaddr = refl; kind = inr (asked, refl) })

pub payload-send_response :
    (packet r : DhcpPacket) (iface_name : Text) (iface_ips : List Ipv4Addr)
    → payload_of (send_response packet r iface_name iface_ips) ≡ some (Packet.to_bytes r)
unfolding payload_of send_response
payload-send_response packet r iface_name iface_ips =
    elim (Bool-cases (packet.ciaddr == unspecified && packet.giaddr == unspecified)) [
      | inl e ↦ rw (e, send_response) refl
      | inr e ↦ rw (e, send_response) refl
    ]

module _ {S : Type 0} (db : Database S) (laws : LeaseLaws db) (config : Config)
    (iface_ips : List Ipv4Addr) where
  handle_packet-Replies :
      (packet : DhcpPacket) (clock : Clock) (s : S) (r : DhcpPacket)
      → (handle_packet db config packet iface_ips clock s).1 ≡ some r
      → Replies packet r
  handle_packet-Replies packet clock s r =
      handle_packet_cases db config iface_ips (λ z. z.1 ≡ some r → Replies packet r) packet clock s
        (λ e. cc)
        (λ asked e.
          let o = handle_discover-Offer db laws config packet iface_ips s clock r e in
          create_offer-Replies packet o.ip o.subnet config r asked o.reply)
        (λ asked e.
          let a = handle_request-Acknowledged db laws config packet iface_ips clock s r e in
          create_ack-Replies packet a.ip a.subnet config r asked a.reply)
        (λ asked e. cc)

  -- For every database that meets the lease laws, whatever bytes arrive, what is sent is a reply to
  -- the packet that they hold: with op 2, its transaction and its hardware address, an OFFER for a
  -- DISCOVER and an ACK for a REQUEST. No other message is answered.
  pub serve-Conforms :
      (bytes payload : List ℕ) (iface_name : Text) (clock : Clock) (s : S)
      → payload_of (serve db config bytes iface_name iface_ips clock s).1 ≡ some payload
      → Conforms bytes payload
  unfolding payload_of
  serve-Conforms bytes payload iface_name clock s =
      serve_cases db config iface_ips (λ z. payload_of z.1 ≡ some payload → Conforms bytes payload)
        bytes iface_name clock s (λ e. cc)
        (λ packet listens read.
          elim (Option-cases (handle_packet db config packet iface_ips clock s).1) [
            | inl e ↦ rw e (λ h. cc)
            | inr (r, e) ↦ rw e (λ h. record {
              packet = packet;
              response = r;
              read = read;
              written = ground (arith, h, payload-send_response packet r iface_name iface_ips);
              replies = handle_packet-Replies packet clock s r e;
            })
          ])
