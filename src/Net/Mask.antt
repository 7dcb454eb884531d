-- ===== src/Net/Mask.antt =====
-- Prefix lengths and masks: the `mask` that crates/ndhcpd/src/utils/network.rs and
-- crates/ndhcpd/src/dhcp/server.rs compute with `u32::MAX << (32 - prefix)`.
use ndhcpd.Common.{
  ℕ, ◌+◌, ◌-◌, ◌*◌, ◌/◌, ◌%◌, ◌^◌, ◌≤◌, ◌<◌, ◌≡◌, refl, ◌∙◌, arith, ◌==◌, if◌then◌else◌, bit_and,
  bit_or, Bool, true, and_parts, ◌&&◌, ==_iff,
}
use ndhcpd.Common.Bits.{bit_and-ones, bit_and-mul_pow, bit_or-ones}
use native.Mathlib.Nat.{one-le-pow, mod-eq_of_lt}
use ndhcpd.Common.Table.{holds_below, holds_below-at}
use ndhcpd.Bytes.{IsU32}

-- `32 - prefix` of a `u8`, and the shift by it, with the wrapping of a release build (a debug build
-- panics above 32). Up to 32 nothing wraps.
abbrev shift_of : ℕ → ℕ
shift_of prefix = (32 + 256 - prefix) % 256 % 32

-- `if prefix == 0 { 0 } else { u32::MAX << (32 - prefix) }`
unfoldable pub mask_of : ℕ → ℕ
mask_of prefix = if prefix == 0 then 0 else 0xffff_ffff * 2 ^ shift_of prefix % 2 ^ 32

-- `!mask` on a `u32`.
abbrev pub complement : ℕ → ℕ
complement mask = 0xffff_ffff - mask

-- The number of addresses that a prefix leaves open.
abbrev pub block : ℕ → ℕ
block prefix = 2 ^ (32 - prefix)

-- The facts about prefixes 0 to 32, evaluated at each.
mask_facts : ℕ → Bool
mask_facts p =
    (mask_of p == (2 ^ p - 1) * block p)
    && (2 ^ p * block p == 2 ^ 32)
    && (complement (mask_of p) + 1 == block p)

mask_table : holds_below mask_facts 33 ≡ true
unfolding holds_below mask_facts mask_of
mask_table = refl

pub mask_of-block :
    (p : ℕ)
    → p ≤ 32
    → (mask_of p ≡ (2 ^ p - 1) * block p)
      × (2 ^ p * block p ≡ 2 ^ 32)
      × (complement (mask_of p) + 1 ≡ block p)
unfolding mask_facts
mask_of-block p h =
    let (ab, c) = and_parts _ _ (holds_below-at mask_facts 33 p (omega arith) mask_table) in
    let (a, b) = and_parts _ _ ab in ((==_iff _ _).0 a, (==_iff _ _).0 b, (==_iff _ _).0 c)

pub mask_of-IsU32 : (p : ℕ) → IsU32 (mask_of p)
unfolding mask_of
mask_of-IsU32 p = ground arith

pub block_pos : (p : ℕ) → 0 < block p
block_pos p = one-le-pow (32 - p) 2 (omega arith)

quotient_lt : (x b n : ℕ) → x < n * b → x / b < n
quotient_lt x b n h = grind arith

-- `addr & mask` is the first address of the block of `addr`.
pub bit_and-mask_of : (x p : ℕ) → IsU32 x → p ≤ 32 → bit_and x (mask_of p) ≡ x / block p * block p
bit_and-mask_of x p hx hp =
    let (m, total, _) = mask_of-block p hp in
    let small : x / block p < 2 ^ p = quotient_lt x (block p) (2 ^ p) (rw total hx) in
    rw (
      m,
      bit_and-mul_pow (32 - p) x (2 ^ p - 1),
      bit_and-ones p (x / block p) (2 ^ p - 1) (omega (arith, one-le-pow p 2 (omega arith))),
      mod-eq_of_lt small,
    )

-- `start | !mask` is the last address of the block.
pub bit_or-complement :
    (q p : ℕ) → p ≤ 32 → bit_or (q * block p) (complement (mask_of p)) ≡ q * block p + block p - 1
bit_or-complement q p hp =
    let (_, _, c) = mask_of-block p hp in
    bit_or-ones (32 - p) q (complement (mask_of p)) (omega arith) ∙ omega arith
