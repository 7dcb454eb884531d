-- ===== src/Models.antt =====
-- crates/ndhcpd/src/models.rs: the rows of the database. Ids and Unix times are `i64` in the source
-- and never negative there; here they are numbers.
pub mod DnsServers
pub mod Ipv6Servers
pub mod Fits
use ndhcpd.Common.{ℕ, Bool, Option, List}
use ndhcpd.Bytes.{Text, Ipv4Addr}

pub record Subnet : Type 0 where
  pub id : Option ℕ
  pub network : Ipv4Addr
  pub netmask : ℕ
  pub gateway : Ipv4Addr
  pub dns_servers : List Ipv4Addr
  pub domain_name : Option Text

pub record DynamicRange : Type 0 where
  pub id : Option ℕ
  pub subnet_id : ℕ
  pub range_start : Ipv4Addr
  pub range_end : Ipv4Addr
  pub enabled : Bool

pub record StaticIp : Type 0 where
  pub subnet_id : ℕ
  pub mac_address : Text
  pub ip_address : Ipv4Addr
  pub hostname : Option Text

pub record Lease : Type 0 where
  pub id : Option ℕ
  pub subnet_id : ℕ
  pub mac_address : Text
  pub ip_address : Ipv4Addr
  pub lease_start : ℕ
  pub lease_end : ℕ
  pub hostname : Option Text

pub record ApiToken : Type 0 where
  pub id : Option ℕ
  pub name : Text
  pub token_hash : Option Text
  pub salt : Option Text
  pub created_at : Option ℕ
  pub last_used_at : Option ℕ
  pub enabled : Bool
  pub token : Option Text

-- An IPv6 address by its value as a `u128`.
abbrev pub Ipv6Addr : Type 0
Ipv6Addr = ℕ

pub record IaPrefix : Type 0 where
  pub id : Option ℕ
  pub interface : Text
  pub prefix : Ipv6Addr
  pub prefix_len : ℕ
  pub preferred_lifetime : ℕ
  pub valid_lifetime : ℕ
  pub dns_servers : List Ipv6Addr
  pub dns_lifetime : ℕ
