-- ===== src/Db/Sqlite/Written.antt =====
-- The rows that crates/ndhcpd/src/db/sqlite.rs writes are read as what was written. A value is within
-- the Rust type that holds it.
use ndhcpd.Common.{
  ℕ, ◌%◌, ◌^◌, ◌≡◌, refl, Bool, true, false, not, Option, some, [], ◌∷◌, >>=-eq-some, arith, ◌==◌,
  if◌then◌else◌,
}
use ndhcpd.Bytes.{Text, IsU32}
use ndhcpd.Addr.RoundTrip.{ipv4_from_string-ipv4_to_string}
use ndhcpd.Models.{Subnet, DynamicRange, StaticIp, IaPrefix}
use ndhcpd.Models.Fits.{SubnetFits, RangeFits, PrefixFits}
use ndhcpd.Models.DnsServers.{dns_servers_from_string-to_string}
use ndhcpd.Models.Ipv6Servers.{Ipv6Text, IsIpv6Text, ipv6_servers_read}
use ndhcpd.Db.Sql.{Column, Row, value_at, assign}
use ndhcpd.Db.Sqlite.Rows.{
  integer_of, text_of, optional_integer_of, optional_text_of, ipv4_of, subnet_of_row, range_of_row,
  static_ip_of_row,
}
use ndhcpd.Db.Sqlite.Answers.{optional_str, flag}
use ndhcpd.Db.Sqlite.LeaseRows.{optional_text_of_str}
use ndhcpd.Db.Sqlite.Dhcp.{subnet_values, range_values, static_ip_values}
use ndhcpd.Db.Sqlite.Others.{ia_prefix_of_row, ia_prefix_values}

-- The columns of a row are set, its id stays.
pub subnet_of_row-set :
    (x : Subnet) (now : ℕ) (r : Row) (i : Option ℕ)
    → SubnetFits x
    → optional_integer_of (r Column.id) ≡ some i
    → subnet_of_row (assign now (subnet_values x) r) ≡ some (record x { id = i })
unfolding subnet_of_row ipv4_of
subnet_of_row-set x now r i fits keyed =
    let byte : x.netmask % 256 ≡ x.netmask = omega (arith, fits.netmask) in
    rw
      (
        keyed,
        ipv4_from_string-ipv4_to_string x.network fits.network,
        ipv4_from_string-ipv4_to_string x.gateway fits.gateway,
        dns_servers_from_string-to_string x.dns_servers fits.dns_servers,
        optional_text_of_str now x.domain_name,
        byte,
      )
      refl

flag_read : (now : ℕ) (b : Bool) → integer_of (value_at now (flag b)) ≡ some (if b then 1 else 0)
flag_read now true = refl
flag_read now false = refl

flag_back : (b : Bool) → not ((if b then 1 else 0) == 0) ≡ b
flag_back true = refl
flag_back false = refl

pub range_of_row-set :
    (x : DynamicRange) (now : ℕ) (r : Row) (i : Option ℕ)
    → RangeFits x
    → optional_integer_of (r Column.id) ≡ some i
    → range_of_row (assign now (range_values x) r) ≡ some (record x { id = i })
unfolding range_of_row ipv4_of
range_of_row-set x now r i fits keyed =
    rw
      (
        keyed,
        ipv4_from_string-ipv4_to_string x.range_start fits.range_start,
        ipv4_from_string-ipv4_to_string x.range_end fits.range_end,
        flag_read now x.enabled,
        flag_back x.enabled,
      )
      refl

pub static_ip_of_row-set :
    (x : StaticIp) (now : ℕ) (r : Row)
    → IsU32 x.ip_address
    → static_ip_of_row (assign now (static_ip_values x) r) ≡ some x
unfolding static_ip_of_row ipv4_of
static_ip_of_row-set x now r fits =
    rw (ipv4_from_string-ipv4_to_string x.ip_address fits, optional_text_of_str now x.hostname) refl

-- A new host name leaves the rest of a static address.
pub static_ip_of_row-renamed :
    (x : StaticIp) (hostname : Option Text) (now : ℕ) (r : Row)
    → static_ip_of_row r ≡ some x
    → static_ip_of_row (assign now ((Column.hostname, optional_str hostname) ∷ []) r)
      ≡ some (record x { hostname = hostname })
unfolding static_ip_of_row
static_ip_of_row-renamed x hostname now r h =
    let (sid, e0, h0) = >>=-eq-some (integer_of (r Column.subnet_id)) _ x h in
    let (mac, e1, h1) = >>=-eq-some (text_of (r Column.mac_address)) _ x h0 in
    let (ip, e2, h2) = >>=-eq-some (ipv4_of (r Column.ip_address)) _ x h1 in
    let (host, e3, h3) = >>=-eq-some (optional_text_of (r Column.hostname)) _ x h2 in
    rw (e0, e1, e2, optional_text_of_str now hostname) (ground (arith, h3))

module _ (ipv6 : Ipv6Text) (ipv6_laws : IsIpv6Text ipv6) where
  pub ia_prefix_of_row-set :
      (x : IaPrefix) (now : ℕ) (r : Row) (i : Option ℕ)
      → PrefixFits x
      → optional_integer_of (r Column.id) ≡ some i
      → ia_prefix_of_row ipv6 (assign now (ia_prefix_values ipv6 x) r) ≡ some (record x { id = i })
  unfolding ia_prefix_of_row
  ia_prefix_of_row-set x now r i fits keyed =
      let byte : x.prefix_len % 256 ≡ x.prefix_len = omega (arith, fits.prefix_len) in
      let preferred : x.preferred_lifetime % 2 ^ 32 ≡ x.preferred_lifetime =
        omega (arith, fits.preferred_lifetime) in
      let valid : x.valid_lifetime % 2 ^ 32 ≡ x.valid_lifetime =
        omega (arith, fits.valid_lifetime) in
      let dns : x.dns_lifetime % 2 ^ 32 ≡ x.dns_lifetime = omega (arith, fits.dns_lifetime) in
      rw
        (
          keyed,
          ipv6_laws.read x.prefix fits.prefix,
          ipv6_servers_read ipv6 ipv6_laws x.dns_servers fits.dns_servers,
          byte,
          preferred,
          valid,
          dns,
        )
        refl
