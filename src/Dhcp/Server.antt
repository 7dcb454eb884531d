-- ===== src/Dhcp/Server.antt =====
-- `handle_packet` and the body of `listen_loop` of crates/ndhcpd/src/dhcp/server.rs: one datagram,
-- from the interface filter to the frame or datagram that answers it.
pub mod Cases
use ndhcpd.Common.{
  ℕ, Bool, true, false, ◌&&◌, not, Option, none, some, List, [], ◌∷◌, ◌==◌, if◌then◌else◌, any,
  Result, ok, err,
}
use ndhcpd.Bytes.{Text, Ipv4Addr, unspecified, broadcast, text_eq}
use ndhcpd.Config.{Config}
use ndhcpd.Db.Interface.{Database, DbError}
use ndhcpd.Dhcp.Discover.{Clock, handle_discover}
use ndhcpd.Dhcp.Reply.{SocketAddr, response_dest}
use ndhcpd.Dhcp.Request.{handle_request, handle_release}
use ndhcpd.Proto.MessageType.{
  MessageType, discover, offer, request, decline, ack, nak, release, inform,
}
use ndhcpd.Proto.Packet
use ndhcpd.Proto.Packet.{DhcpPacket, ParseError, get_message_type}

-- What one round of the loop sends: nothing, a raw frame to the broadcast hardware address, or a
-- datagram (through the broadcast socket of the interface where `is_broadcast`).
pub data Sent : Type 0 where
  nothing : Sent
  raw_l2 : Text → Ipv4Addr → Ipv4Addr → List ℕ → Sent
  datagram : Bool → SocketAddr → List ℕ → Sent

-- `iface_ips.first().copied().unwrap_or(Ipv4Addr::UNSPECIFIED)`
first_or_unspecified : List Ipv4Addr → Ipv4Addr
first_or_unspecified [] = unspecified
first_or_unspecified (ip ∷ ips) = ip

unfoldable pub send_response : DhcpPacket → DhcpPacket → Text → List Ipv4Addr → Sent
unfolding first_or_unspecified
send_response packet response iface_name iface_ips =
    let bytes = Packet.to_bytes response in
    let dest = response_dest packet response in
    let is_broadcast = dest.ip == broadcast in
    if packet.ciaddr == unspecified && packet.giaddr == unspecified
    then raw_l2 iface_name (first_or_unspecified iface_ips)
        (if is_broadcast then broadcast else response.yiaddr) bytes
    else datagram is_broadcast dest bytes

module _ {S : Type 0} (db : Database S) (config : Config) where
  unfoldable pub handle_packet : DhcpPacket → List Ipv4Addr → Clock → S → S × Option DhcpPacket
  handle_packet packet iface_ips clock s = elim (get_message_type packet) [
    | none ↦ (s, none)
    | some discover ↦ (s, handle_discover db config packet iface_ips clock s)
    | some request ↦ handle_request db config packet iface_ips clock s
    | some release ↦ (handle_release db packet clock.first s, none)
    | some inform ↦ (s, none)
    | some offer ↦ (s, none)
    | some decline ↦ (s, none)
    | some ack ↦ (s, none)
    | some nak ↦ (s, none)
  ]

  -- One datagram: `bytes` arrived on `iface_name`, whose addresses are `iface_ips`.
  unfoldable pub serve : List ℕ → Text → List Ipv4Addr → Clock → S → S × Sent
  serve bytes iface_name iface_ips clock s =
      if any (λ i. text_eq i iface_name) config.listen_interfaces
      then elim (Packet.parse bytes) [
        | err _ ↦ (s, nothing)
        | ok packet ↦
            let (s', response) = handle_packet packet iface_ips clock s in
            (
              s',
              elim response [
                | none ↦ nothing
                | some r ↦ send_response packet r iface_name iface_ips
              ],
            )
      ]
      else (s, nothing)

-- The background task of `run`: one round of the lease cleanup. An error is only logged.
unfoldable pub clean_up : {S : Type 0} → Database S → ℕ → S → S
clean_up db now s = (db.delete_expired_leases now s).0
