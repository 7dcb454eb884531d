-- ===== src/Proto/Packet.antt =====
-- crates/dhcp-proto/src/packet.rs: the fixed header of 240 bytes and the options behind it.
pub mod RoundTrip
pub mod Parsing
pub mod Bounds
pub mod Checked
use ndhcpd.Common.{
  ℕ, zero, suc, ◌+◌, ◌/◌, ◌%◌, ◌^◌, Bool, true, false, ◌&&◌, Option, none, some, List, [], ◌∷◌,
  ◌++◌, ltb, leb, ◌==◌, if◌then◌else◌, length, get_or, take, drop, replicate, copy_at, Result, ok,
  err,
}
use ndhcpd.Bytes.{Ipv4Addr, ipv4, be16, be32, from_be16, from_be32, text_eq}
use ndhcpd.Proto.Mac.{MacAddress, mac, as_bytes, from_slice}
use ndhcpd.Proto.MessageType.{MessageType}
use ndhcpd.Proto.Options
use ndhcpd.Proto.Options.{DhcpOption, message_type, end}

pub record DhcpPacket : Type 0 where
  pub op : ℕ
  pub htype : ℕ
  pub hlen : ℕ
  pub hops : ℕ
  pub xid : ℕ
  pub secs : ℕ
  pub flags : ℕ
  pub ciaddr : Ipv4Addr
  pub yiaddr : Ipv4Addr
  pub siaddr : Ipv4Addr
  pub giaddr : Ipv4Addr
  pub chaddr : MacAddress
  pub options : List DhcpOption

abbrev pub magic_cookie : List ℕ
magic_cookie = 99 ∷ 130 ∷ 83 ∷ 99 ∷ []

-- `DhcpPacket::new`
abbrev pub new : DhcpPacket
new = record {
  op = 1;
  htype = 1;
  hlen = 6;
  hops = 0;
  xid = 0;
  secs = 0;
  flags = 0;
  ciaddr = ipv4 0 0 0 0;
  yiaddr = ipv4 0 0 0 0;
  siaddr = ipv4 0 0 0 0;
  giaddr = ipv4 0 0 0 0;
  chaddr = mac 0 0 0 0 0 0;
  options = [];
}

-- The two errors of `parse`, by their messages.
pub data ParseError : Type 0 where
  packet_too_small invalid_mac_address : ParseError

-- The loop of `parse` on `data[i..]`; each round takes a byte at least.
pub parse_options : ℕ → List ℕ → List DhcpOption
parse_options zero rest = []
parse_options (suc fuel) [] = []
parse_options (suc fuel) (code ∷ []) = if code == 255 then end ∷ [] else []
parse_options (suc fuel) (code ∷ len ∷ body) =
    let skip = parse_options fuel (len ∷ body) in
    let next = parse_options fuel (drop len body) in
    if code == 255
    then end ∷ []
    else if code == 0
    then skip
    else if leb len (length body)
    then Options.parse code (take len body) ∷ next
    else []

-- The option list of a packet: empty unless something follows the magic cookie.
unfoldable pub options_of : List ℕ → List DhcpOption
options_of bytes =
    if ltb 240 (length bytes) && text_eq (take 4 (drop 236 bytes)) magic_cookie
    then parse_options (length (drop 240 bytes)) (drop 240 bytes)
    else []

abbrev at : List ℕ → ℕ → ℕ
at bytes i = get_or bytes i 0

-- The packet that `parse` builds from an input of at least 240 bytes.
unfoldable pub packet_of : List ℕ → MacAddress → DhcpPacket
packet_of bytes chaddr = record {
  op = at bytes 0;
  htype = at bytes 1;
  hlen = at bytes 2;
  hops = at bytes 3;
  xid = from_be32 (at bytes 4) (at bytes 5) (at bytes 6) (at bytes 7);
  secs = from_be16 (at bytes 8) (at bytes 9);
  flags = from_be16 (at bytes 10) (at bytes 11);
  ciaddr = ipv4 (at bytes 12) (at bytes 13) (at bytes 14) (at bytes 15);
  yiaddr = ipv4 (at bytes 16) (at bytes 17) (at bytes 18) (at bytes 19);
  siaddr = ipv4 (at bytes 20) (at bytes 21) (at bytes 22) (at bytes 23);
  giaddr = ipv4 (at bytes 24) (at bytes 25) (at bytes 26) (at bytes 27);
  chaddr = chaddr;
  options = options_of bytes;
}

-- `DhcpPacket::parse`
unfoldable pub parse : List ℕ → Result ParseError DhcpPacket
unfolding packet_of
parse bytes =
    if ltb (length bytes) 240
    then err packet_too_small
    else elim (from_slice (take 6 (drop 28 bytes))) [
      | none ↦ err invalid_mac_address
      | some chaddr ↦ ok (packet_of bytes chaddr)
    ]

-- The writes of `to_bytes` into its 240 zeros.
header : DhcpPacket → List ℕ
header p = copy_at 236 magic_cookie (
    copy_at 28 (as_bytes p.chaddr) (
      copy_at 24 (be32 p.giaddr) (
        copy_at 20 (be32 p.siaddr) (
          copy_at 16 (be32 p.yiaddr) (
            copy_at 12 (be32 p.ciaddr) (
              copy_at 10 (be16 p.flags) (
                copy_at 8 (be16 p.secs) (
                  copy_at 4 (be32 p.xid) (
                    copy_at 3 (p.hops ∷ []) (
                      copy_at 2 (p.hlen ∷ []) (
                        copy_at 1 (p.htype ∷ [])
                          (copy_at 0 (p.op ∷ []) (replicate 240 0)))))))))))))

options_bytes : List DhcpOption → List ℕ
options_bytes [] = []
options_bytes (o ∷ os) = Options.to_bytes o ++ options_bytes os

-- `DhcpPacket::to_bytes`
unfoldable pub to_bytes : DhcpPacket → List ℕ
unfolding header options_bytes
to_bytes p = header p ++ (options_bytes p.options ++ (255 ∷ []))

unfoldable pub first_message_type : List DhcpOption → Option MessageType
first_message_type [] = none
first_message_type (message_type mt ∷ os) = some mt
first_message_type (o ∷ os) = first_message_type os

unfoldable pub get_message_type : DhcpPacket → Option MessageType
unfolding first_message_type
get_message_type p = first_message_type p.options
