-- ===== src/Proto/Packet/RoundTrip.antt =====
-- What `to_bytes` of crates/dhcp-proto/src/packet.rs writes, `parse` reads back.
use ndhcpd.Common.{
  ℕ, zero, suc, ◌+◌, ◌≤◌, ◌<◌, ◌≡◌, refl, List, [], ◌∷◌, ◌++◌, arith, length, All, length-append,
  append_assoc, take-length-append, drop-length-append, ok, true, false, ltb,
}
use ndhcpd.Bytes.{IsU16, IsU32, from_be32-be32, from_be16-be16, text_eq}
use ndhcpd.Proto.Mac.{from_slice}
use ndhcpd.Proto.Options
use ndhcpd.Proto.Options.{DhcpOption, end}
use ndhcpd.Proto.Options.RoundTrip.{IsSendable, Wire, to_bytes-Wire}
use ndhcpd.Proto.Packet.{
  DhcpPacket, parse_options, options_of, parse, header, options_bytes, to_bytes,
}

-- The fields fit their widths, and every option fits the wire format.
pub record IsPacket (p : DhcpPacket) : Type 0 where
  pub xid : IsU32 p.xid
  pub secs : IsU16 p.secs
  pub flags : IsU16 p.flags
  pub ciaddr : IsU32 p.ciaddr
  pub yiaddr : IsU32 p.yiaddr
  pub siaddr : IsU32 p.siaddr
  pub giaddr : IsU32 p.giaddr
  pub options : All IsSendable p.options

-- One option, whatever follows it.
parse_option :
    (fuel : ℕ) (o : DhcpOption) (rest : List ℕ)
    → Wire o
    → parse_options (suc fuel) (Options.to_bytes o ++ rest) ≡ o ∷ parse_options fuel rest
unfolding parse_options
parse_option fuel o rest w = rw w.written (
    ground (
      arith,
      length-append w.value rest,
      take-length-append w.value rest,
      drop-length-append w.value rest,
      w.read,
    ))

parse_options-options_bytes :
    (os : List DhcpOption) (fuel : ℕ)
    → All IsSendable os
    → length os < fuel
    → parse_options fuel (options_bytes os ++ (255 ∷ [])) ≡ os ++ (end ∷ [])
unfolding options_bytes
parse_options-options_bytes os zero h f = absurd (omega arith)
parse_options-options_bytes [] (suc fuel) h f = unfold parse_options in refl
parse_options-options_bytes (o ∷ os) (suc fuel) (h, hs) f = rw (
  append_assoc (Options.to_bytes o) (options_bytes os) (255 ∷ []),
  parse_option fuel o (options_bytes os ++ (255 ∷ [])) (to_bytes-Wire o h),
  parse_options-options_bytes os fuel hs (omega arith),
)

length-header : (p : DhcpPacket) (rest : List ℕ) → length (header p ++ rest) ≡ 240 + length rest
unfolding header
length-header p rest = omega arith

length-options_bytes :
    (os : List DhcpOption) → All IsSendable os → length os ≤ length (options_bytes os)
unfolding options_bytes
length-options_bytes [] h = omega arith
length-options_bytes (o ∷ os) (h, hs) =
    let w = to_bytes-Wire o h in
    rw w.written
      (omega (arith, length-append w.value (options_bytes os), length-options_bytes os hs))

not_small : (n : ℕ) → ltb (240 + n) 240 ≡ false
not_small n = ground arith

has_options : (n : ℕ) → 0 < n → ltb 240 (240 + n) ≡ true
has_options n h = ground arith

options_of-to_bytes :
    (p : DhcpPacket) → All IsSendable p.options → options_of (to_bytes p) ≡ p.options ++ (end ∷ [])
unfolding options_of to_bytes header text_eq
options_of-to_bytes p h =
    rw
      (
        length-header p (options_bytes p.options ++ (255 ∷ [])),
        has_options (length (options_bytes p.options ++ (255 ∷ [])))
            (omega (arith, length-append (options_bytes p.options) (255 ∷ []))),
      )
      (parse_options-options_bytes p.options _ h (
        omega (
          arith,
          length-append (options_bytes p.options) (255 ∷ []),
          length-options_bytes p.options h,
        )))

-- Every packet that fits the wire format is read back from its bytes, with an `end` option behind
-- its own options.
pub parse-to_bytes :
    (p : DhcpPacket)
    → IsPacket p
    → parse (to_bytes p) ≡ ok (record p { options = p.options ++ (end ∷ []) })
unfolding parse to_bytes header from_slice
parse-to_bytes p h =
    rw
      (
        length-header p (options_bytes p.options ++ (255 ∷ [])),
        not_small (length (options_bytes p.options ++ (255 ∷ []))),
      )
      (λ i. ok (record p {
        xid = from_be32-be32 p.xid h.xid i;
        secs = from_be16-be16 p.secs h.secs i;
        flags = from_be16-be16 p.flags h.flags i;
        ciaddr = from_be32-be32 p.ciaddr h.ciaddr i;
        yiaddr = from_be32-be32 p.yiaddr h.yiaddr i;
        siaddr = from_be32-be32 p.siaddr h.siaddr i;
        giaddr = from_be32-be32 p.giaddr h.giaddr i;
        options = options_of-to_bytes p h.options i;
      }))
