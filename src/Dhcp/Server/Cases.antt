-- ===== src/Dhcp/Server/Cases.antt =====
-- The ways through `handle_packet` and the listen loop of crates/ndhcpd/src/dhcp/server.rs.
use ndhcpd.Common.{
  ℕ, ◌≡◌, inl, inr, true, Option, none, some, List, any, ok, Option-cases, Result-cases, Bool-cases,
}
use ndhcpd.Bytes.{Text, Ipv4Addr, text_eq}
use ndhcpd.Config.{Config}
use ndhcpd.Db.Interface.{Database}
use ndhcpd.Proto.MessageType.{discover, offer, request, decline, ack, nak, release, inform}
use ndhcpd.Proto.Packet
use ndhcpd.Proto.Packet.{DhcpPacket, get_message_type}
use ndhcpd.Dhcp.Discover.{Clock, handle_discover}
use ndhcpd.Dhcp.Request.{handle_request, handle_release}
use ndhcpd.Dhcp.Server.{Sent, nothing, send_response, handle_packet, serve}

module _ {S : Type 0} (db : Database S) (config : Config) (iface_ips : List Ipv4Addr) where
  pub handle_packet_cases {ℓ} :
      (P : S × Option DhcpPacket → Type ℓ) (packet : DhcpPacket) (clock : Clock) (s : S)
      → P (s, none)
      → (get_message_type packet ≡ some discover
          → P (s, handle_discover db config packet iface_ips clock s))
      → (get_message_type packet ≡ some request
          → P (handle_request db config packet iface_ips clock s))
      → (get_message_type packet ≡ some release → P (handle_release db packet clock.first s, none))
      → P (handle_packet db config packet iface_ips clock s)
  unfolding handle_packet
  handle_packet_cases P packet clock s ignored discovered requested released =
      elim (Option-cases (get_message_type packet)) [
        | inl e ↦ rw (e, handle_packet) ignored
        | inr (discover, e) ↦ rw (e, handle_packet) (discovered e)
        | inr (request, e) ↦ rw (e, handle_packet) (requested e)
        | inr (release, e) ↦ rw (e, handle_packet) (released e)
        | inr (inform, e) ↦ rw (e, handle_packet) ignored
        | inr (offer, e) ↦ rw (e, handle_packet) ignored
        | inr (decline, e) ↦ rw (e, handle_packet) ignored
        | inr (ack, e) ↦ rw (e, handle_packet) ignored
        | inr (nak, e) ↦ rw (e, handle_packet) ignored
      ]

  pub serve_cases {ℓ} :
      (P : S × Sent → Type ℓ) (bytes : List ℕ) (iface_name : Text) (clock : Clock) (s : S)
      → P (s, nothing)
      → ((packet : DhcpPacket)
          → any (λ i. text_eq i iface_name) config.listen_interfaces ≡ true
          → Packet.parse bytes ≡ ok packet
          → P (
            (handle_packet db config packet iface_ips clock s).0,
            elim (handle_packet db config packet iface_ips clock s).1 [
              | none ↦ nothing
              | some r ↦ send_response packet r iface_name iface_ips
            ],
          ))
      → P (serve db config bytes iface_name iface_ips clock s)
  unfolding serve
  serve_cases P bytes iface_name clock s ignored handled =
      elim (Bool-cases (any (λ i. text_eq i iface_name) config.listen_interfaces)) [
        | inr e ↦ rw (e, serve) ignored
        | inl e ↦ elim (Result-cases (Packet.parse bytes)) [
          | inr (_, f) ↦ rw (e, f, serve) ignored
          | inl (packet, f) ↦ rw (e, f, serve) (handled packet e f)
        ]
      ]
