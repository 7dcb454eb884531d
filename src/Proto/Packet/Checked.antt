-- ===== src/Proto/Packet/Checked.antt =====
-- `DhcpPacket::parse` of crates/dhcp-proto/src/packet.rs with the panics of its indexing: every
-- `data[i]` and `&data[a..b]` is tested against the length of the input, and `none` is a panic.
pub mod Laws
use ndhcpd.Common.{
  ℕ, zero, suc, ◌+◌, ◌-◌, ◌≤◌, ◌<◌, ◌≡◌, refl, sym, ap, ◌∙◌, true, false, Option, none, some, ◌>>=◌,
  List, [], ◌∷◌, ◌&&◌, arith, ◌==◌, leb, ltb, le→leb, if◌then◌else◌, length, take, drop, get_or,
  length-drop, ◌⊎◌, Result, ok, err, Bool-cases, Option-cases, inl, inr,
}
use ndhcpd.Bytes.{Ipv4Addr, ipv4, from_be16, from_be32, text_eq}
use ndhcpd.Proto.Mac.{MacAddress, from_slice}
use ndhcpd.Proto.Options
use ndhcpd.Proto.Options.{DhcpOption, end}
use ndhcpd.Proto.Packet.{
  DhcpPacket, ParseError, packet_too_small, invalid_mac_address, magic_cookie, parse_options,
  options_of, packet_of, parse,
}
use ndhcpd.Proto.Packet.Parsing.{parse_options_fuel}

-- `data[i]`
pub byte : List ℕ → ℕ → Option ℕ
byte [] i = none
byte (x ∷ xs) zero = some x
byte (x ∷ xs) (suc i) = byte xs i

-- `&data[a..b]`
unfoldable pub slice : List ℕ → ℕ → ℕ → Option (List ℕ)
slice bytes a b =
    if leb a b && leb b (length bytes) then some (take (b - a) (drop a bytes)) else none

-- `u16::from_be_bytes([data[i], data[i + 1]])`
unfoldable pub be16_at : List ℕ → ℕ → Option ℕ
be16_at bytes i = do a ← byte bytes i; b ← byte bytes (i + 1); some (from_be16 a b)

-- `u32::from_be_bytes([data[i], data[i + 1], data[i + 2], data[i + 3]])`
unfoldable pub be32_at : List ℕ → ℕ → Option ℕ
be32_at bytes i = do
  a ← byte bytes i
  b ← byte bytes (i + 1)
  c ← byte bytes (i + 2)
  d ← byte bytes (i + 3)
  some (from_be32 a b c d)

-- `Ipv4Addr::new(data[i], data[i + 1], data[i + 2], data[i + 3])`
unfoldable pub ipv4_at : List ℕ → ℕ → Option Ipv4Addr
ipv4_at bytes i = do
  a ← byte bytes i
  b ← byte bytes (i + 1)
  c ← byte bytes (i + 2)
  d ← byte bytes (i + 3)
  some (ipv4 a b c d)

-- The loop over the options from index `i` on; each round moves `i` up by a byte at least.
pub options_from : ℕ → List ℕ → ℕ → Option (List DhcpOption)
options_from zero bytes i = some []
options_from (suc fuel) bytes i =
    let skip = options_from fuel bytes (i + 1) in
    if ltb i (length bytes)
    then (do
      code ← byte bytes i
      if code == 255
          then some (end ∷ [])
          else if code == 0
          then skip
          else if leb (length bytes) (i + 1)
          then some []
          else (do
            len ← byte bytes (i + 1)
            let rest = options_from fuel bytes (i + 2 + len) in
                if ltb (length bytes) (i + 2 + len) then some [] else (do
                  body ← slice bytes (i + 2) (i + 2 + len)
                  options ← rest
                  some (Options.parse code body ∷ options))))
    else some []

-- The options of a packet, behind the magic cookie.
unfoldable pub options_at : List ℕ → Option (List DhcpOption)
options_at bytes =
    let options = options_from (length bytes) bytes 240 in
    if ltb 240 (length bytes)
    then (do cookie ← slice bytes 236 240; if text_eq cookie magic_cookie then options else some [])
    else some []

-- `.ok_or("Invalid MAC address")?`
unfoldable pub or_invalid :
    Option MacAddress
    → (MacAddress → Option (Result ParseError DhcpPacket))
    → Option (Result ParseError DhcpPacket)
or_invalid none go_on = some (err invalid_mac_address)
or_invalid (some chaddr) go_on = go_on chaddr

-- `DhcpPacket::parse`, with its panics.
unfoldable pub parse_checked : List ℕ → Option (Result ParseError DhcpPacket)
unfolding or_invalid be16_at be32_at ipv4_at options_at
parse_checked bytes = if ltb (length bytes) 240 then some (err packet_too_small) else do
  xid ← be32_at bytes 4
  secs ← be16_at bytes 8
  flags ← be16_at bytes 10
  ciaddr ← ipv4_at bytes 12
  yiaddr ← ipv4_at bytes 16
  siaddr ← ipv4_at bytes 20
  giaddr ← ipv4_at bytes 24
  hardware ← slice bytes 28 34
  or_invalid (from_slice hardware) (λ chaddr. do
    options ← options_at bytes
    op ← byte bytes 0
    htype ← byte bytes 1
    hlen ← byte bytes 2
    hops ← byte bytes 3
    some (
        ok (record {
          op = op;
          htype = htype;
          hlen = hlen;
          hops = hops;
          xid = xid;
          secs = secs;
          flags = flags;
          ciaddr = ciaddr;
          yiaddr = yiaddr;
          siaddr = siaddr;
          giaddr = giaddr;
          chaddr = chaddr;
          options = options;
        })))
