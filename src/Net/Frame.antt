-- ===== src/Net/Frame.antt =====
-- `build_l2_udp_frame` of crates/ndhcpd/src/utils/network.rs.
pub mod Laws
use ndhcpd.Common.{ℕ, ◌+◌, ◌/◌, ◌%◌, ◌^◌, List, [], ◌∷◌, ◌++◌, length, take, drop, set}
use ndhcpd.Bytes.{Ipv4Addr, be16, be32}
use ndhcpd.Proto.Mac.{MacAddress, as_bytes}
use ndhcpd.Net.Checksum.{ip_checksum}

-- `8u16 + payload.len() as u16` and `20u16 + udp_len`, with the wrapping of a release build.
abbrev pub udp_len : List ℕ → ℕ
udp_len payload = (8 + length payload % 2 ^ 16) % 2 ^ 16

abbrev pub ip_total_len : List ℕ → ℕ
ip_total_len payload = (20 + udp_len payload) % 2 ^ 16

pub ethernet_header : MacAddress → MacAddress → List ℕ
ethernet_header src_mac dst_mac = as_bytes dst_mac ++ (as_bytes src_mac ++ be16 0x0800)

-- The IPv4 header with its checksum field still zero.
pub ip_header : ℕ → Ipv4Addr → Ipv4Addr → List ℕ
ip_header total_len src_ip dst_ip =
    0x45
    ∷ 0x00
    ∷ (be16 total_len
        ++ (be16 0 ++ (be16 0x4000 ++ (128 ∷ 17 ∷ (be16 0 ++ (be32 src_ip ++ be32 dst_ip))))))

udp_header : ℕ → ℕ → ℕ → List ℕ
udp_header src_port dst_port len = be16 src_port ++ (be16 dst_port ++ (be16 len ++ be16 0))

pub build_l2_udp_frame : MacAddress → MacAddress → Ipv4Addr → Ipv4Addr → ℕ → ℕ → List ℕ → List ℕ
build_l2_udp_frame src_mac dst_mac src_ip dst_ip src_port dst_port payload =
    let eth = ethernet_header src_mac dst_mac in
    let ip_start : ℕ = length eth in
    let frame = eth ++ ip_header (ip_total_len payload) src_ip dst_ip in
    let cksum = ip_checksum (take 20 (drop ip_start frame)) in
    let frame' =
      set (set frame (ip_start + 10) (cksum / 256 % 256)) (ip_start + 11) (cksum % 256) in
    frame' ++ (udp_header src_port dst_port (udp_len payload) ++ payload)
