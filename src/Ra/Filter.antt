-- ===== src/Ra/Filter.antt =====
-- `Icmp6Filter` of crates/ndhcpd/src/ra/server.rs, and which types the filter of the socket lets
-- through.
use ndhcpd.Common.{
  ℕ, ◌-◌, ◌/◌, ◌%◌, ◌^◌, ◌<◌, ◌≡◌, ◌↔◌, refl, Bool, true, false, not, List, arith, ◌==◌, get_or,
  set, replicate, bit_and,
}
use ndhcpd.Common.Table.{holds_below, holds_below-at}
use ndhcpd.Ra.Packet.{icmpv6_type_rs}

-- 256 bits in eight words.
pub record Icmp6Filter : Type 0 where
  pub icmp6_filt : List ℕ

abbrev pub block_all : Icmp6Filter
block_all = record { icmp6_filt = replicate 8 0xffff_ffff }

-- `self.icmp6_filt[t >> 5] &= !(1u32 << (t & 31))`
unfoldable pub pass : Icmp6Filter → ℕ → Icmp6Filter
pass filter t = record {
  icmp6_filt =
      set filter.icmp6_filt (t / 32)
        (bit_and (get_or filter.icmp6_filt (t / 32) 0) (0xffff_ffff - 2 ^ (t % 32)));
}

-- The filter that `create_ra_socket` sets.
abbrev pub ra_filter : Icmp6Filter
ra_filter = pass block_all icmpv6_type_rs

-- RFC 3542: a type is blocked where its bit is set.
pub blocks : Icmp6Filter → ℕ → Bool
blocks filter t = get_or filter.icmp6_filt (t / 32) 0 / 2 ^ (t % 32) % 2 == 1

same_test : Bool → Bool → Bool
same_test true b = b
same_test false b = not b

ra_filter_facts : ℕ → Bool
ra_filter_facts t = same_test (not (blocks ra_filter t)) (t == 133)

ra_filter_table : holds_below ra_filter_facts 256 ≡ true
unfolding holds_below ra_filter_facts same_test blocks pass
ra_filter_table = refl

same_test-eq : (a b : Bool) → same_test (not a) b ≡ true → a ≡ not b
unfolding same_test
same_test-eq true true h = cc
same_test-eq true false h = refl
same_test-eq false true h = refl
same_test-eq false false h = cc

-- Of the 256 types of ICMPv6 the filter of the socket lets Router Solicitations through, and no
-- other.
pub ra_filter_iff : (t : ℕ) → t < 256 → (blocks ra_filter t ≡ false) ↔ (t ≡ icmpv6_type_rs)
unfolding ra_filter_facts
ra_filter_iff t h =
    let e = same_test-eq _ _ (holds_below-at ra_filter_facts 256 t h ra_filter_table) in
    (λ k. ground (arith, e, k), λ k. ground (arith, e, k))
