-- ===== src/Db/Sqlite.antt =====
-- `impl Database for SqliteDatabase` of crates/ndhcpd/src/db/sqlite.rs, over an engine. Opening the
-- file and running the migrations is left to sqlx.
pub mod Rows
pub mod Answers
pub mod Dhcp
pub mod Others
pub mod Reading
pub mod LeaseRows
pub mod Leases
pub mod ActiveLease
pub mod LeaseTable
pub mod Written
pub mod Created
pub mod TokenRows
pub mod Readable
pub mod NoPanic
pub mod Tests
use ndhcpd.Models.Ipv6Servers.{Ipv6Text}
use ndhcpd.Db.Interface.{Database}
use ndhcpd.Db.Sql.Engine.{Engine}
use ndhcpd.Db.Sqlite.Dhcp
use ndhcpd.Db.Sqlite.Others

abbrev pub sqlite : {S : Type 0} → Ipv6Text → Engine S → Database S
sqlite ipv6 engine = record {
  create_subnet = Dhcp.create_subnet engine;
  get_subnet = Dhcp.get_subnet engine;
  list_subnets = Dhcp.list_subnets engine;
  update_subnet = Dhcp.update_subnet engine;
  delete_subnet = Dhcp.delete_subnet engine;
  create_range = Dhcp.create_range engine;
  list_ranges = Dhcp.list_ranges engine;
  delete_range = Dhcp.delete_range engine;
  create_static_ip = Dhcp.create_static_ip engine;
  list_static_ips = Dhcp.list_static_ips engine;
  get_static_ip_by_mac = Dhcp.get_static_ip_by_mac engine;
  update_static_ip_hostname = Dhcp.update_static_ip_hostname engine;
  delete_static_ip = Dhcp.delete_static_ip engine;
  create_lease = Dhcp.create_lease engine;
  get_active_lease = Dhcp.get_active_lease engine;
  list_active_leases = Dhcp.list_active_leases engine;
  expire_lease = Dhcp.expire_lease engine;
  delete_expired_leases = Dhcp.delete_expired_leases engine;
  create_ia_prefix = Others.create_ia_prefix ipv6 engine;
  get_ia_prefix = Others.get_ia_prefix ipv6 engine;
  list_ia_prefixes = Others.list_ia_prefixes ipv6 engine;
  update_ia_prefix = Others.update_ia_prefix ipv6 engine;
  delete_ia_prefix = Others.delete_ia_prefix ipv6 engine;
  list_tokens = Others.list_tokens engine;
  list_api_tokens = Others.list_api_tokens engine;
  create_token = Others.create_token engine;
  delete_token = Others.delete_token engine;
  toggle_token = Others.toggle_token engine;
  update_token_last_used = Others.update_token_last_used engine;
}
