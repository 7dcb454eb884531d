-- ===== src/Models/Fits.antt =====
-- The bounds that the Rust types of crates/ndhcpd/src/models.rs put on the values of a row.
use ndhcpd.Common.{All}
use ndhcpd.Bytes.{IsByte, IsU32}
use ndhcpd.Models.{Subnet, DynamicRange, IaPrefix}
use ndhcpd.Models.Ipv6Servers.{IsU128}

pub record SubnetFits (x : Subnet) : Type 0 where
  pub network : IsU32 x.network
  pub netmask : IsByte x.netmask
  pub gateway : IsU32 x.gateway
  pub dns_servers : All IsU32 x.dns_servers

pub record RangeFits (x : DynamicRange) : Type 0 where
  pub range_start : IsU32 x.range_start
  pub range_end : IsU32 x.range_end

pub record PrefixFits (x : IaPrefix) : Type 0 where
  pub prefix : IsU128 x.prefix
  pub prefix_len : IsByte x.prefix_len
  pub preferred_lifetime : IsU32 x.preferred_lifetime
  pub valid_lifetime : IsU32 x.valid_lifetime
  pub dns_servers : All IsU128 x.dns_servers
  pub dns_lifetime : IsU32 x.dns_lifetime
