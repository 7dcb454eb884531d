-- ===== src/Net/Frame/Laws.antt =====
-- What a receiver finds in a frame of `build_l2_udp_frame`.
use ndhcpd.Common.{
  ℕ, ◌+◌, ◌-◌, ◌*◌, ◌/◌, ◌%◌, ◌^◌, ◌≤◌, ◌≡◌, refl, ap, ◌∙◌, arith, Bool, true, ◌&&◌, Option, none,
  some, leb, ◌==◌, if◌then◌else◌, List, [], ◌∷◌, ◌++◌, length, take, drop, get_or,
}
use ndhcpd.Bytes.{IsU16, IsU32, from_be16, from_be32, be16, be32, from_be16-be16, from_be32-be32}
use ndhcpd.Proto.Mac.{MacAddress, as_bytes}
use ndhcpd.Net.Checksum.{ip_checksum, sum_words}
use ndhcpd.Net.Checksum.Laws.{ones_sum, ip_checksum-ones_sum, ip_checksum_verifies}
use ndhcpd.Net.Frame.{ip_total_len, ethernet_header, ip_header, udp_header, build_l2_udp_frame}

-- The big-endian words of a header, summed (RFC 1071).
word_sum : List ℕ → ℕ
word_sum [] = 0
word_sum (a ∷ []) = from_be16 a 0
word_sum (a ∷ b ∷ rest) = from_be16 a b + word_sum rest

-- The test of a header with its checksum: the one's complement sum is all ones.
sums_to_ones : List ℕ → Bool
sums_to_ones bytes = ones_sum (word_sum bytes) == 65535

-- What a receiver hands on of a frame.
pub record Datagram : Type 0 where
  pub receiver : List ℕ
  pub sender : List ℕ
  pub src_ip : ℕ
  pub dst_ip : ℕ
  pub src_port : ℕ
  pub dst_port : ℕ
  pub payload : List ℕ

abbrev u16_at : List ℕ → ℕ → ℕ
u16_at bytes i = from_be16 (get_or bytes i 0) (get_or bytes (i + 1) 0)

abbrev u32_at : List ℕ → ℕ → ℕ
u32_at bytes i =
    from_be32 (get_or bytes i 0) (get_or bytes (i + 1) 0) (get_or bytes (i + 2) 0)
      (get_or bytes (i + 3) 0)

abbrev header_length : List ℕ → ℕ
header_length ip = get_or ip 0 0 % 16 * 4

-- What the receiver asks of an IP packet: version 4, all of its bytes, protocol 17 for UDP, no
-- fragment, and a header whose words have the one's complement sum of all ones.
is_udp : List ℕ → Bool
is_udp ip =
    (get_or ip 0 0 / 16 == 4)
    && leb (u16_at ip 2) (length ip)
    && (u16_at ip 6 % 2 ^ 14 == 0)
    && (get_or ip 9 0 == 17)
    && sums_to_ones (take (header_length ip) ip)

-- The UDP datagram behind the IP header, cut to its own length, where the IP packet holds it.
udp_of : List ℕ → List ℕ → List ℕ → Option Datagram
udp_of frame ip udp =
    if leb (header_length ip + u16_at udp 4) (u16_at ip 2)
    then some (record {
      receiver = take 6 frame;
      sender = take 6 (drop 6 frame);
      src_ip = u32_at ip 12;
      dst_ip = u32_at ip 16;
      src_port = u16_at udp 0;
      dst_port = u16_at udp 2;
      payload = take (u16_at udp 4 - 8) (drop 8 udp);
    })
    else none

-- A receiver by the formats of Ethernet II, RFC 791 and RFC 768, with the type 0x0800 for IPv4.
pub receive : List ℕ → Option Datagram
receive frame =
    let ip = drop 14 frame in
    if (u16_at frame 12 == 0x0800) && is_udp ip
    then udp_of frame ip (drop (header_length ip) ip)
    else none

take_all : (xs : List ℕ) → take (length xs) xs ≡ xs
take_all [] = refl
take_all (x ∷ xs) = ap (λ z. x ∷ z) (take_all xs)

whole : (payload : List ℕ) → take (8 + length payload - 8) payload ≡ payload
whole payload =
    let n : 8 + length payload - 8 ≡ length payload = omega arith in
    ap (λ k. take k payload) n ∙ take_all payload

module _ (src_mac dst_mac : MacAddress) (src_ip dst_ip src_port dst_port : ℕ)
    (payload : List ℕ) where
  abbrev pub frame : List ℕ
  frame = build_l2_udp_frame src_mac dst_mac src_ip dst_ip src_port dst_port payload

  -- The IP header of a forged frame passes the checksum test.
  frame_checksum : ip_checksum (take 20 (drop 14 frame)) ≡ 0
  unfolding build_l2_udp_frame ethernet_header ip_header udp_header
  frame_checksum =
      ip_checksum_verifies 5
        (0x45
          ∷ 0x00
          ∷ (be16 (ip_total_len payload) ++ (be16 0 ++ (be16 0x4000 ++ (128 ∷ 17 ∷ [])))))
        (be32 src_ip ++ be32 dst_ip) refl (omega arith) (omega arith)

  -- The words of the IP header, with its checksum, sum to all ones.
  header_sum : sums_to_ones (take 20 (drop 14 frame)) ≡ true
  unfolding sums_to_ones word_sum build_l2_udp_frame ethernet_header ip_header udp_header sum_words
  header_sum =
      let e = ip_checksum-ones_sum (take 20 (drop 14 frame)) (omega arith) in
      ground (arith, e, frame_checksum)

  -- The IP and UDP lengths do not wrap.
  frame_lengths :
      length payload ≤ 65507
      → (from_be16 (get_or frame 16 0) (get_or frame 17 0) ≡ 28 + length payload)
        × (from_be16 (get_or frame 38 0) (get_or frame 39 0) ≡ 8 + length payload)
  unfolding build_l2_udp_frame ethernet_header ip_header udp_header
  frame_lengths h = (omega arith, omega arith)

  frame-is_udp : length payload ≤ 65507 → is_udp (drop 14 frame) ≡ true
  unfolding is_udp build_l2_udp_frame ethernet_header ip_header udp_header
  frame-is_udp h =
      let (ip, udp) = frame_lengths h in
      let total : u16_at (drop 14 frame) 2 ≡ 28 + length payload = ip in
      let fits : leb (28 + length payload) (length (drop 14 frame)) ≡ true = ground arith in
      rw (total, fits) header_sum

  -- A receiver by the formats of Ethernet II, RFC 791 and RFC 768 accepts a forged frame and hands
  -- on what it was built from: both hardware addresses, both IP addresses, both ports and the
  -- payload. It checks the type 0x0800, version 4 without options, that the total length is that of
  -- the packet, no fragment, protocol 17, that the 16-bit words of the IP header sum up to all ones
  -- in one's complement, and that the UDP length is that of the datagram. Addresses are below 2^32,
  -- ports below 2^16, and the payload has at most 65507 bytes.
  pub frame_received :
      IsU32 src_ip
      → IsU32 dst_ip
      → IsU16 src_port
      → IsU16 dst_port
      → length payload ≤ 65507
      → receive frame
        ≡ some (record {
          receiver = as_bytes dst_mac;
          sender = as_bytes src_mac;
          src_ip = src_ip;
          dst_ip = dst_ip;
          src_port = src_port;
          dst_port = dst_port;
          payload = payload;
        })
  unfolding receive udp_of build_l2_udp_frame ethernet_header ip_header udp_header
  frame_received s d sp dp h =
      let (ip, udp) = frame_lengths h in
      let total : u16_at (drop 14 frame) 2 ≡ 28 + length payload = ip in
      let len : u16_at (drop 34 frame) 4 ≡ 8 + length payload = udp in
      let asked = frame-is_udp h in
      let fits : leb (20 + (8 + length payload)) (28 + length payload) ≡ true = ground arith in
      rw
        (
          asked,
          total,
          len,
          fits,
          from_be32-be32 src_ip s,
          from_be32-be32 dst_ip d,
          from_be16-be16 src_port sp,
          from_be16-be16 dst_port dp,
          whole payload,
        )
        refl
