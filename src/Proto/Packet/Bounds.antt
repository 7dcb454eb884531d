-- ===== src/Proto/Packet/Bounds.antt =====
-- The widths of what `DhcpPacket::parse` of crates/dhcp-proto/src/packet.rs reads from bytes.
use ndhcpd.Common.{
  ℕ, zero, suc, ◌≡◌, some, List, [], ◌∷◌, arith, All, get_or, take, drop, length, ltb, Bool-cases,
  Option-cases, inl, inr, ok, subst,
}
use ndhcpd.Bytes.{IsByte, IsU16, IsU32}
use ndhcpd.Proto.Mac.{MacAddress, IsMac, mac, from_slice}
use ndhcpd.Proto.Packet.{DhcpPacket, parse, packet_of}

-- The header fits its widths: bytes, numbers of 16 and of 32 bits, a hardware address of bytes.
pub record IsHeader (p : DhcpPacket) : Type 0 where
  pub op : IsByte p.op
  pub htype : IsByte p.htype
  pub hlen : IsByte p.hlen
  pub hops : IsByte p.hops
  pub xid : IsU32 p.xid
  pub secs : IsU16 p.secs
  pub flags : IsU16 p.flags
  pub ciaddr : IsU32 p.ciaddr
  pub yiaddr : IsU32 p.yiaddr
  pub siaddr : IsU32 p.siaddr
  pub giaddr : IsU32 p.giaddr
  pub chaddr : IsMac p.chaddr

get_or-IsByte : (bytes : List ℕ) → All IsByte bytes → (i : ℕ) → IsByte (get_or bytes i 0)
get_or-IsByte [] h i = omega arith
get_or-IsByte (b ∷ bytes) (h, hs) zero = h
get_or-IsByte (b ∷ bytes) (h, hs) (suc i) = get_or-IsByte bytes hs i

take-IsByte : (n : ℕ) (bytes : List ℕ) → All IsByte bytes → All IsByte (take n bytes)
take-IsByte zero bytes h = tt
take-IsByte (suc n) [] h = tt
take-IsByte (suc n) (b ∷ bytes) (h, hs) = (h, take-IsByte n bytes hs)

drop-IsByte : (n : ℕ) (bytes : List ℕ) → All IsByte bytes → All IsByte (drop n bytes)
drop-IsByte zero bytes h = h
drop-IsByte (suc n) [] h = tt
drop-IsByte (suc n) (b ∷ bytes) (h, hs) = drop-IsByte n bytes hs

from_slice-IsMac :
    (bytes : List ℕ) (m : MacAddress) → All IsByte bytes → from_slice bytes ≡ some m → IsMac m
unfolding from_slice
from_slice-IsMac (a ∷ b ∷ c ∷ d ∷ e ∷ f ∷ rest) m (p0, (p1, (p2, (p3, (p4, (p5, ps)))))) h =
    let same : mac a b c d e f ≡ m = cc in
    subst IsMac same
      (record { byte0 = p0; byte1 = p1; byte2 = p2; byte3 = p3; byte4 = p4; byte5 = p5 })
from_slice-IsMac [] m p h = cc
from_slice-IsMac (a ∷ []) m p h = cc
from_slice-IsMac (a ∷ b ∷ []) m p h = cc
from_slice-IsMac (a ∷ b ∷ c ∷ []) m p h = cc
from_slice-IsMac (a ∷ b ∷ c ∷ d ∷ []) m p h = cc
from_slice-IsMac (a ∷ b ∷ c ∷ d ∷ e ∷ []) m p h = cc

packet_of-IsHeader :
    (bytes : List ℕ) (m : MacAddress) → All IsByte bytes → IsMac m → IsHeader (packet_of bytes m)
unfolding packet_of
packet_of-IsHeader bytes m h is_mac =
    let b = get_or-IsByte bytes h in
    record {
      op = b 0;
      htype = b 1;
      hlen = b 2;
      hops = b 3;
      xid = omega (arith, b 4, b 5, b 6, b 7);
      secs = omega (arith, b 8, b 9);
      flags = omega (arith, b 10, b 11);
      ciaddr = omega (arith, b 12, b 13, b 14, b 15);
      yiaddr = omega (arith, b 16, b 17, b 18, b 19);
      siaddr = omega (arith, b 20, b 21, b 22, b 23);
      giaddr = omega (arith, b 24, b 25, b 26, b 27);
      chaddr = is_mac;
    }

-- Every packet that is parsed from bytes fits its header: the one-byte fields and the hardware
-- address are bytes, secs and flags below 2^16, the transaction and the four addresses below 2^32.
pub parse-IsHeader :
    (bytes : List ℕ) (p : DhcpPacket) → All IsByte bytes → parse bytes ≡ ok p → IsHeader p
unfolding parse
parse-IsHeader bytes p h = elim (Bool-cases (ltb (length bytes) 240)) [
  | inl e ↦ rw e (λ k. cc)
  | inr e ↦ rw e (elim (Option-cases (from_slice (take 6 (drop 28 bytes)))) [
    | inl f ↦ rw f (λ k. cc)
    | inr (m, f) ↦ rw f (λ k.
        let same : packet_of bytes m ≡ p = cc in
        subst IsHeader same (
          packet_of-IsHeader bytes m h
            (from_slice-IsMac _ m (take-IsByte 6 (drop 28 bytes) (drop-IsByte 28 bytes h)) f)))
  ])
]
