-- ===== src/Net/Tests.antt =====
-- Runs of the network helpers on small inputs.
use ndhcpd.Common.{some, ℕ, ◌≡◌, ◌↔◌, true, List, [], ◌∷◌, arith}
use ndhcpd.Bytes.{IsU32, ipv4}
use ndhcpd.Proto.Mac.{MacAddress, mac, as_bytes}
use ndhcpd.Net.Overlap.{subnets_overlap, InSubnet, subnets_overlap_iff}
use ndhcpd.Net.Checksum.{fold_carries}
use ndhcpd.Net.Checksum.Laws.{ones_sum, fold_carries-ones_sum}
use ndhcpd.Net.Frame.Laws.{frame, receive, frame_received}

subnets_overlap_iff_example :
    (subnets_overlap (ipv4 10 0 0 0) 8 (ipv4 10 1 2 0) 24 ≡ true)
    ↔ ((ip : ℕ) × IsU32 ip × InSubnet (ipv4 10 0 0 0) 8 ip × InSubnet (ipv4 10 1 2 0) 24 ip)
subnets_overlap_iff_example =
    subnets_overlap_iff (ipv4 10 0 0 0) 8 (ipv4 10 1 2 0) 24 (omega arith) (omega arith)
      (omega arith) (omega arith)

fold_carries-ones_sum_example : fold_carries 2 0x1fffe ≡ ones_sum 0x1fffe
fold_carries-ones_sum_example = fold_carries-ones_sum 0 0x1fffe (omega arith)

abbrev sender : MacAddress
sender = mac 2 0 0 0 0 1

abbrev everyone : MacAddress
everyone = mac 255 255 255 255 255 255

abbrev sample : List ℕ
sample = frame sender everyone (ipv4 10 0 0 1) (ipv4 10 0 0 9) 67 68 (1 ∷ 2 ∷ 3 ∷ [])

frame_received_example :
    receive sample
    ≡ some (record {
      receiver = as_bytes everyone;
      sender = as_bytes sender;
      src_ip = ipv4 10 0 0 1;
      dst_ip = ipv4 10 0 0 9;
      src_port = 67;
      dst_port = 68;
      payload = 1 ∷ 2 ∷ 3 ∷ [];
    })
frame_received_example =
    frame_received sender everyone (ipv4 10 0 0 1) (ipv4 10 0 0 9) 67 68 (1 ∷ 2 ∷ 3 ∷ [])
      (omega arith) (omega arith) (omega arith) (omega arith) (omega arith)
