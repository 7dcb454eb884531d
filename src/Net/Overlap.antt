-- ===== src/Net/Overlap.antt =====
-- `subnets_overlap` of crates/ndhcpd/src/utils/network.rs.
use ndhcpd.Common.{
  ℕ, ◌+◌, ◌-◌, ◌*◌, ◌/◌, ◌≤◌, ◌<◌, ◌≡◌, ◌↔◌, Bool, true, ◌&&◌, arith, leb, max, bit_and, bit_or,
  ◌∙◌, sym, and_parts, leb→le, le→leb,
}
use native.Mathlib.Nat.{div-mul-le_self}
use ndhcpd.Bytes.{Ipv4Addr, IsU32}
use ndhcpd.Net.Mask.{mask_of, complement, block, bit_and-mask_of, bit_or-complement, block_pos}

unfoldable pub subnets_overlap : Ipv4Addr → ℕ → Ipv4Addr → ℕ → Bool
subnets_overlap net_a prefix_a net_b prefix_b =
    let mask_a = mask_of prefix_a in
    let mask_b = mask_of prefix_b in
    let start_a = bit_and net_a mask_a in
    let end_a = bit_or start_a (complement mask_a) in
    let start_b = bit_and net_b mask_b in
    let end_b = bit_or start_b (complement mask_b) in leb start_a end_b && leb start_b end_a

-- `ip & mask == network & mask`, the test of `iface_in_subnet`.
abbrev pub InSubnet : Ipv4Addr → ℕ → Ipv4Addr → Type 0
InSubnet net prefix ip = bit_and ip (mask_of prefix) ≡ bit_and net (mask_of prefix)

-- The first and the last address of a subnet.
abbrev pub first_addr : Ipv4Addr → ℕ → ℕ
first_addr net prefix = net / block prefix * block prefix

abbrev pub last_addr : Ipv4Addr → ℕ → ℕ
last_addr net prefix = first_addr net prefix + block prefix - 1

block_interval :
    (x y b : ℕ) → 0 < b → (x / b * b ≡ y / b * b) ↔ ((y / b * b ≤ x) × (x ≤ y / b * b + b - 1))
block_interval x y b h = (λ e. grind arith, λ e. grind arith)

pub InSubnet-iff :
    (net prefix ip : ℕ)
    → IsU32 net
    → IsU32 ip
    → prefix ≤ 32
    → InSubnet net prefix ip ↔ ((first_addr net prefix ≤ ip) × (ip ≤ last_addr net prefix))
InSubnet-iff net prefix ip hn hi hp =
    rw (bit_and-mask_of ip prefix hi hp, bit_and-mask_of net prefix hn hp)
      (block_interval ip net (block prefix) (block_pos prefix))

overlap_intervals :
    (na pa nb pb : ℕ)
    → IsU32 na
    → IsU32 nb
    → pa ≤ 32
    → pb ≤ 32
    → subnets_overlap na pa nb pb
      ≡ leb (first_addr na pa) (last_addr nb pb) && leb (first_addr nb pb) (last_addr na pa)
unfolding subnets_overlap
overlap_intervals na pa nb pb ha hb hpa hpb = rw (
  bit_and-mask_of na pa ha hpa,
  bit_and-mask_of nb pb hb hpb,
  bit_or-complement (na / block pa) pa hpa,
  bit_or-complement (nb / block pb) pb hpb,
)

first_addr-le : (net prefix : ℕ) → first_addr net prefix ≤ net
first_addr-le net prefix = div-mul-le_self net (block prefix)

last_addr-le : (net prefix : ℕ) → first_addr net prefix ≤ last_addr net prefix
last_addr-le net prefix = omega (arith, block_pos prefix)

-- For prefixes up to 32 and addresses of 32 bits, `subnets_overlap` answers true exactly when some
-- address lies in both subnets.
pub subnets_overlap_iff :
    (na pa nb pb : ℕ)
    → IsU32 na
    → IsU32 nb
    → pa ≤ 32
    → pb ≤ 32
    → (subnets_overlap na pa nb pb ≡ true)
      ↔ ((ip : ℕ) × IsU32 ip × InSubnet na pa ip × InSubnet nb pb ip)
subnets_overlap_iff na pa nb pb ha hb hpa hpb =
    let test = overlap_intervals na pa nb pb ha hb hpa hpb in
    (
      λ e.
          let (l, r) = and_parts _ _ (sym test ∙ e) in
          let ip : ℕ = max (first_addr na pa) (first_addr nb pb) in
          let ab : first_addr na pa ≤ last_addr nb pb = leb→le _ _ l in
          let ba : first_addr nb pb ≤ last_addr na pa = leb→le _ _ r in
          let u : IsU32 ip = omega (arith, first_addr-le na pa, first_addr-le nb pb) in
          (
            ip,
            u,
            (InSubnet-iff na pa ip ha u hpa).1 (omega arith, omega (arith, last_addr-le na pa)),
            (InSubnet-iff nb pb ip hb u hpb).1 (omega arith, omega (arith, last_addr-le nb pb)),
          ),
      λ (ip, u, a, b).
          let (la, ra) = (InSubnet-iff na pa ip ha u hpa).0 a in
          let (lb, rb) = (InSubnet-iff nb pb ip hb u hpb).0 b in
          let l = le→leb (first_addr na pa) (last_addr nb pb) (omega arith) in
          let r = le→leb (first_addr nb pb) (last_addr na pa) (omega arith) in rw (test, l, r),
    )
