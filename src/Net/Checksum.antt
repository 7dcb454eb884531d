-- ===== src/Net/Checksum.antt =====
-- `ip_checksum` of crates/ndhcpd/src/utils/network.rs.
pub mod Laws
use ndhcpd.Common.{
  ℕ, zero, suc, ◌+◌, ◌-◌, ◌*◌, ◌/◌, ◌%◌, ◌^◌, ◌≤◌, ◌<◌, ◌≡◌, ◌≢◌, refl, ◌↔◌, Bool, true, ◌&&◌,
  arith, leb, ◌∙◌, sym, List, [], ◌∷◌, ◌++◌, ◌==◌, if◌then◌else◌, All, length, not, Bool-cases, inl,
  inr,
}
use ndhcpd.Bytes.{IsByte, IsU32, IsU16, from_be16}

-- The first loop: the 16-bit words, an odd last byte padded on the right, summed in a `u32`.
unfoldable pub sum_words : List ℕ → ℕ
sum_words [] = 0
sum_words (a ∷ []) = a * 256
sum_words (a ∷ b ∷ rest) = from_be16 a b + sum_words rest

-- `while sum >> 16 != 0 { sum = (sum & 0xffff) + (sum >> 16) }`
pub fold_carries : ℕ → ℕ → ℕ
fold_carries zero sum = sum
fold_carries (suc fuel) sum =
    let rest = fold_carries fuel (sum % 2 ^ 16 + sum / 2 ^ 16) in
    if sum / 2 ^ 16 == 0 then sum else rest

-- `!(sum as u16)`. The loop has fuel for three rounds; `Laws` shows that two are enough.
pub ip_checksum : List ℕ → ℕ
ip_checksum bytes = 0xffff - fold_carries 3 (sum_words bytes % 2 ^ 32) % 2 ^ 16
