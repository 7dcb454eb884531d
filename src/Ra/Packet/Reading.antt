-- ===== src/Ra/Packet/Reading.antt =====
-- A reader of Router Advertisements after RFC 4861 and RFC 6106: what a host makes of the bytes of
-- `build_router_advertisement` (crates/ndhcpd/src/ra/packet.rs).
use ndhcpd.Common.{
  ℕ, zero, suc, ◌+◌, ◌-◌, ◌*◌, ◌^◌, Option, none, some, List, [], ◌∷◌, leb, ◌==◌, if◌then◌else◌,
  length, take, drop,
}
use ndhcpd.Bytes.{from_be16, from_be32}
use ndhcpd.Models.{Ipv6Addr}

-- The options that a host understands; any other is skipped.
pub data RaOption : Type 0 where
  prefix_information : (prefix_len flags valid preferred : ℕ) (prefix : Ipv6Addr) → RaOption
  rdnss : (lifetime : ℕ) (servers : List Ipv6Addr) → RaOption
  ignored : RaOption

pub record Advertisement : Type 0 where
  pub hop_limit : ℕ
  pub flags : ℕ
  pub router_lifetime : ℕ
  pub reachable_time : ℕ
  pub retrans_timer : ℕ
  pub options : List RaOption

-- The value of four words.
abbrev pub words : ℕ → ℕ → ℕ → ℕ → Ipv6Addr
words a b c d = a * 2 ^ 96 + b * 2 ^ 64 + c * 2 ^ 32 + d

unfoldable pub read_addresses : List ℕ → List Ipv6Addr
read_addresses (a ∷ b ∷ c ∷ d ∷ e ∷ f ∷ g ∷ h ∷ i ∷ j ∷ k ∷ l ∷ m ∷ n ∷ o ∷ p ∷ rest) =
    words (from_be32 a b c d) (from_be32 e f g h) (from_be32 i j k l) (from_be32 m n o p)
    ∷ read_addresses rest
read_addresses _ = []

unfoldable pub read_prefix : List ℕ → RaOption
read_prefix
      (len ∷ flags ∷ v ∷ v1 ∷ v2 ∷ v3 ∷ q ∷ q1 ∷ q2 ∷ q3 ∷ _ ∷ _ ∷ _ ∷ _ ∷ a ∷ b ∷ c ∷ d ∷ e ∷ f ∷ g
        ∷ h ∷ i ∷ j ∷ k ∷ l ∷ m ∷ n ∷ o ∷ p ∷ []) =
    prefix_information len flags (from_be32 v v1 v2 v3) (from_be32 q q1 q2 q3)
      (words (from_be32 a b c d) (from_be32 e f g h) (from_be32 i j k l) (from_be32 m n o p))
read_prefix _ = ignored

unfoldable pub read_rdnss : List ℕ → RaOption
unfolding read_addresses
read_rdnss (_ ∷ _ ∷ a ∷ b ∷ c ∷ d ∷ rest) = rdnss (from_be32 a b c d) (read_addresses rest)
read_rdnss _ = ignored

unfoldable pub read_option : ℕ → List ℕ → RaOption
unfolding read_prefix read_rdnss
read_option type value =
    if type == 3 then read_prefix value else if type == 25 then read_rdnss value else ignored

abbrev pub add_option : RaOption → Option (List RaOption) → Option (List RaOption)
add_option o none = none
add_option o (some os) = some (o ∷ os)

-- `none` for an option of length zero or one that is cut short: the host drops the packet.
unfoldable pub read_options : ℕ → List ℕ → Option (List RaOption)
unfolding read_option
read_options fuel [] = some []
read_options zero (type ∷ rest) = none
read_options (suc fuel) (type ∷ []) = none
read_options (suc fuel) (type ∷ units ∷ body) =
    let next = read_options fuel (drop (8 * units - 2) body) in
    if units == 0
    then none
    else if leb (8 * units - 2) (length body)
    then add_option (read_option type (take (8 * units - 2) body)) next
    else none

unfoldable pub read : List ℕ → Option Advertisement
unfolding read_options
read (t ∷ code ∷ _ ∷ _ ∷ hop ∷ flags ∷ l ∷ l1 ∷ r ∷ r1 ∷ r2 ∷ r3 ∷ s ∷ s1 ∷ s2 ∷ s3 ∷ body) =
    if t == 134
    then elim (read_options (suc (length body)) body) [
      | none ↦ none
      | some os ↦ some (record {
        hop_limit = hop;
        flags = flags;
        router_lifetime = from_be16 l l1;
        reachable_time = from_be32 r r1 r2 r3;
        retrans_timer = from_be32 s s1 s2 s3;
        options = os;
      })
    ]
    else none
read _ = none
