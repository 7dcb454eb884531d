-- ===== src/Models/DnsServers.antt =====
-- `Subnet::dns_servers_to_string` and `dns_servers_from_string` of crates/ndhcpd/src/models.rs: the
-- column of a table that keeps the DNS servers of a subnet. White space outside ASCII, which the
-- first of them never writes, is not trimmed.
use ndhcpd.Common.{
  ℕ, ◌≡◌, ◌≢◌, refl, Bool, false, ◌&&◌, ◌||◌, Option, none, some, List, [], ◌∷◌, map, arith, leb,
  ◌==◌, if◌then◌else◌, All, All-mono, ap, filter_map, filter_map-map,
}
use ndhcpd.Bytes.{Text, Ipv4Addr, IsU32, split, join, split-join}
use ndhcpd.Addr.{ipv4_to_string, ipv4_from_string, ipv4_of_parts, octet}
use ndhcpd.Addr.RoundTrip.{IsPart, ipv4_to_string-IsPart, ipv4_from_string-ipv4_to_string}

abbrev pub is_space : ℕ → Bool
is_space c = (leb 9 c && leb c 13) || (c == 32)

unfoldable pub trim_start : Text → Text
trim_start [] = []
trim_start (c ∷ cs) = if is_space c then trim_start cs else c ∷ cs

unfoldable pub trim_end : Text → Text
trim_end [] = []
trim_end (c ∷ cs) = elim (trim_end cs) [
  | [] ↦ if is_space c then [] else c ∷ []
  | d ∷ ds ↦ c ∷ d ∷ ds
]

-- `str::trim`
unfoldable pub trim : Text → Text
unfolding trim_start trim_end
trim t = trim_end (trim_start t)

-- `s.split(',')` as a list.
unfoldable pub comma_parts : Text → List Text
unfolding split
comma_parts s = let (part, rest) = split b',' s in part ∷ rest

-- `.map(|ip| ip.to_string()).collect::<Vec<_>>().join(",")`
unfoldable pub dns_servers_to_string : List Ipv4Addr → Text
unfolding join
dns_servers_to_string servers = join b',' (map ipv4_to_string servers)

-- `s.split(',').filter_map(|ip| ip.trim().parse().ok()).collect()`
unfoldable pub dns_servers_from_string : Text → List Ipv4Addr
unfolding comma_parts trim
dns_servers_from_string s = filter_map (λ ip. ipv4_from_string (trim ip)) (comma_parts s)

-- A text that neither a comma cuts nor `trim` shortens.
abbrev pub IsPlain : Text → Type 0
IsPlain = All (λ c. (c ≢ b',') × (is_space c ≡ false))

trim_start-IsPlain : (t : Text) → IsPlain t → trim_start t ≡ t
unfolding trim_start
trim_start-IsPlain [] h = refl
trim_start-IsPlain (c ∷ t) ((h, dark), hs) = rw dark refl

trim_end-IsPlain : (t : Text) → IsPlain t → trim_end t ≡ t
unfolding trim_end
trim_end-IsPlain [] h = refl
trim_end-IsPlain (c ∷ []) ((h, dark), hs) = rw dark refl
trim_end-IsPlain (c ∷ d ∷ t) (h, hs) = rw (trim_end-IsPlain (d ∷ t) hs, trim_end) refl

pub trim-IsPlain : (t : Text) → IsPlain t → trim t ≡ t
unfolding trim
trim-IsPlain t h = rw (trim_start-IsPlain t h) (trim_end-IsPlain t h)

pub comma_parts-join :
    (t : Text) (ts : List Text)
    → All (All (λ c. c ≢ b',')) (t ∷ ts)
    → comma_parts (join b',' (t ∷ ts)) ≡ t ∷ ts
unfolding comma_parts
comma_parts-join t ts h = ap (λ (z : Text × List Text). z.0 ∷ z.1) (split-join b',' t ts h)

module _ {A : Type 0} (to_string : A → Text) (from_string : Text → Option A) where
  -- An element that is read back from its text, which is plain.
  abbrev pub IsReadBack : A → Type 0
  IsReadBack a = (from_string (to_string a) ≡ some a) × IsPlain (to_string a)

  pub no_commas : (xs : List A) → All IsReadBack xs → All (All (λ c. c ≢ b',')) (map to_string xs)
  no_commas [] h = tt
  no_commas (a ∷ xs) ((read, plain), hs) = (
    All-mono (λ c. (c ≢ b',') × (is_space c ≡ false)) (λ c. c ≢ b',') (λ c p. p.0) (to_string a)
        plain,
    no_commas xs hs,
  )

  nothing_joined :
      from_string [] ≡ none
      → filter_map (λ t. from_string (trim t)) (comma_parts (join b',' [])) ≡ []
  unfolding comma_parts split join trim trim_start trim_end
  nothing_joined empty = rw empty refl

  -- A list that is joined by commas is read back.
  pub joined_read :
      (xs : List A)
      → from_string [] ≡ none
      → All IsReadBack xs
      → filter_map (λ t. from_string (trim t)) (comma_parts (join b',' (map to_string xs))) ≡ xs
  joined_read [] empty h = nothing_joined empty
  joined_read (a ∷ xs) empty h =
      rw (comma_parts-join (to_string a) (map to_string xs) (no_commas (a ∷ xs) h)) (
        filter_map-map (λ t. from_string (trim t)) to_string (a ∷ xs)
          (All-mono IsReadBack (λ b. from_string (trim (to_string b)) ≡ some b)
            (λ b p. rw (trim-IsPlain (to_string b) p.1) p.0) (a ∷ xs) h))

pub ipv4_to_string-IsPlain : (a : Ipv4Addr) → IsPlain (ipv4_to_string a)
ipv4_to_string-IsPlain a =
    All-mono IsPart (λ c. (c ≢ b',') × (is_space c ≡ false))
      (λ c d. (λ e. absurd (omega arith), ground (arith, d))) (ipv4_to_string a)
      (ipv4_to_string-IsPart a)

empty_address : ipv4_from_string [] ≡ none
unfolding ipv4_from_string split ipv4_of_parts octet
empty_address = refl

-- Every list of DNS servers, of addresses of 32 bits, that is written to its column of a table is
-- read back as it was.
pub dns_servers_from_string-to_string :
    (servers : List Ipv4Addr)
    → All IsU32 servers
    → dns_servers_from_string (dns_servers_to_string servers) ≡ servers
unfolding dns_servers_from_string dns_servers_to_string
dns_servers_from_string-to_string servers h =
    joined_read ipv4_to_string ipv4_from_string servers empty_address (
      All-mono IsU32 (IsReadBack ipv4_to_string ipv4_from_string)
        (λ a fits. (ipv4_from_string-ipv4_to_string a fits, ipv4_to_string-IsPlain a)) servers h)
