-- ===== src/Proto/Options.antt =====
-- crates/dhcp-proto/src/option.rs: the options of RFC 2132 as code, length and value.
pub mod RoundTrip
use ndhcpd.Common.{
  ℕ, ◌+◌, ◌*◌, ◌/◌, ◌%◌, ◌^◌, Bool, true, false, ◌&&◌, Option, none, some, List, [], ◌∷◌, ◌++◌,
  ◌==◌, if◌then◌else◌, length, get_or,
}
use ndhcpd.Bytes.{Text, Ipv4Addr, ipv4, be32, from_be32}
use ndhcpd.Proto.MessageType
use ndhcpd.Proto.MessageType.{MessageType}
use ndhcpd.Proto.Utf8.{from_utf8_lossy}

pub data DhcpOption : Type 0 where
  subnet_mask : Ipv4Addr → DhcpOption
  router : List Ipv4Addr → DhcpOption
  dns_server : List Ipv4Addr → DhcpOption
  domain_name : Text → DhcpOption
  requested_ip_address : Ipv4Addr → DhcpOption
  lease_time : ℕ → DhcpOption
  message_type : MessageType → DhcpOption
  server_identifier : Ipv4Addr → DhcpOption
  renewal_time : ℕ → DhcpOption
  rebinding_time : ℕ → DhcpOption
  hostname : Text → DhcpOption
  end : DhcpOption
  unknown : ℕ → List ℕ → DhcpOption

-- `[data[0], data[1], data[2], data[3]]` as one big-endian number; read where the length is 4.
abbrev quad : List ℕ → ℕ
quad bytes = from_be32 (get_or bytes 0 0) (get_or bytes 1 0) (get_or bytes 2 0) (get_or bytes 3 0)

-- The addresses of `data.chunks_exact(4)`: a rest of fewer than four bytes is dropped.
unfoldable pub addr_chunks : List ℕ → List Ipv4Addr
addr_chunks (a ∷ b ∷ c ∷ d ∷ rest) = ipv4 a b c d ∷ addr_chunks rest
addr_chunks _ = []

message_type_of : ℕ → List ℕ → Option MessageType → DhcpOption
message_type_of code bytes none = unknown code bytes
message_type_of code bytes (some mt) = message_type mt

-- `DhcpOption::parse`
pub parse : ℕ → List ℕ → DhcpOption
parse code bytes =
    if code == 1 && length bytes == 4
    then subnet_mask (quad bytes)
    else if code == 3
    then router (addr_chunks bytes)
    else if code == 6
    then dns_server (addr_chunks bytes)
    else if code == 15
    then domain_name (from_utf8_lossy bytes)
    else if code == 50 && length bytes == 4
    then requested_ip_address (quad bytes)
    else if code == 51 && length bytes == 4
    then lease_time (quad bytes)
    else if code == 53 && length bytes == 1
    then message_type_of code bytes (MessageType.from_u8 (get_or bytes 0 0))
    else if code == 54 && length bytes == 4
    then server_identifier (quad bytes)
    else if code == 58 && length bytes == 4
    then renewal_time (quad bytes)
    else if code == 59 && length bytes == 4
    then rebinding_time (quad bytes)
    else if code == 12
    then hostname (from_utf8_lossy bytes)
    else unknown code bytes

-- `for addr in addrs { bytes.extend_from_slice(&addr.octets()) }`
unfoldable pub addr_bytes : List Ipv4Addr → List ℕ
addr_bytes [] = []
addr_bytes (a ∷ as') = be32 a ++ addr_bytes as'

-- `DhcpOption::to_bytes`; a length is cut to a byte by `as u8`.
unfoldable pub to_bytes : DhcpOption → List ℕ
unfolding addr_bytes
to_bytes (subnet_mask a) = 1 ∷ 4 ∷ be32 a
to_bytes (router as') = 3 ∷ (length as' * 4 % 256) ∷ addr_bytes as'
to_bytes (dns_server as') = 6 ∷ (length as' * 4 % 256) ∷ addr_bytes as'
to_bytes (domain_name name) = 15 ∷ (length name % 256) ∷ name
to_bytes (requested_ip_address a) = 50 ∷ 4 ∷ be32 a
to_bytes (lease_time t) = 51 ∷ 4 ∷ be32 t
to_bytes (message_type mt) = 53 ∷ 1 ∷ MessageType.to_u8 mt ∷ []
to_bytes (server_identifier a) = 54 ∷ 4 ∷ be32 a
to_bytes (renewal_time t) = 58 ∷ 4 ∷ be32 t
to_bytes (rebinding_time t) = 59 ∷ 4 ∷ be32 t
to_bytes (hostname name) = 12 ∷ (length name % 256) ∷ name
to_bytes end = []
to_bytes (unknown code bytes) = code ∷ (length bytes % 256) ∷ bytes
