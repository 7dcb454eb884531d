-- ===== src/Db/Sqlite/Rows.antt =====
-- How crates/ndhcpd/src/db/sqlite.rs reads a row of SQLite, by `get`, `parse().unwrap()` and `as`:
-- `none` stands for a panic. The text form of an IPv6 address is the standard library's.
use ndhcpd.Common.{ℕ, ◌%◌, not, Option, none, some, ◌==◌, ◌>>=◌}
use ndhcpd.Bytes.{Text, Ipv4Addr}
use ndhcpd.Addr.{ipv4_from_string}
use ndhcpd.Models.{Subnet, DynamicRange, StaticIp, Lease}
use ndhcpd.Models.DnsServers.{dns_servers_from_string}
use ndhcpd.Db.Sql.{Column, Row, Value, null, integer, text}

-- `r.get::<i64, _>(…)`
abbrev pub integer_of : Value → Option ℕ
integer_of (integer n) = some n
integer_of _ = none

-- `r.get::<String, _>(…)`
abbrev pub text_of : Value → Option Text
text_of (text t) = some t
text_of _ = none

-- `r.get::<Option<i64>, _>(…)`
abbrev pub optional_integer_of : Value → Option (Option ℕ)
optional_integer_of null = some none
optional_integer_of (integer n) = some (some n)
optional_integer_of (text t) = none

-- `r.get::<Option<String>, _>(…)`
abbrev pub optional_text_of : Value → Option (Option Text)
optional_text_of null = some none
optional_text_of (text t) = some (some t)
optional_text_of (integer n) = none

-- `r.get::<String, _>(…).parse().unwrap()` on an `Ipv4Addr`.
unfoldable pub ipv4_of : Value → Option Ipv4Addr
ipv4_of v = text_of v >>= ipv4_from_string

unfoldable pub subnet_of_row : Row → Option Subnet
subnet_of_row r = do
  id ← optional_integer_of (r Column.id)
  network ← ipv4_of (r Column.network)
  netmask ← integer_of (r Column.netmask)
  gateway ← ipv4_of (r Column.gateway)
  servers ← text_of (r Column.dns_servers)
  domain_name ← optional_text_of (r Column.domain_name)
  some (record {
    id = id;
    network = network;
    netmask = netmask % 256;
    gateway = gateway;
    dns_servers = dns_servers_from_string servers;
    domain_name = domain_name;
  })

unfoldable pub range_of_row : Row → Option DynamicRange
range_of_row r = do
  id ← optional_integer_of (r Column.id)
  subnet_id ← integer_of (r Column.subnet_id)
  range_start ← ipv4_of (r Column.range_start)
  range_end ← ipv4_of (r Column.range_end)
  enabled ← integer_of (r Column.enabled)
  some (record {
    id = id;
    subnet_id = subnet_id;
    range_start = range_start;
    range_end = range_end;
    enabled = not (enabled == 0);
  })

unfoldable pub static_ip_of_row : Row → Option StaticIp
static_ip_of_row r = do
  subnet_id ← integer_of (r Column.subnet_id)
  mac_address ← text_of (r Column.mac_address)
  ip_address ← ipv4_of (r Column.ip_address)
  hostname ← optional_text_of (r Column.hostname)
  some (record {
    subnet_id = subnet_id;
    mac_address = mac_address;
    ip_address = ip_address;
    hostname = hostname;
  })

unfoldable pub lease_of_row : Row → Option Lease
lease_of_row r = do
  id ← optional_integer_of (r Column.id)
  subnet_id ← integer_of (r Column.subnet_id)
  mac_address ← text_of (r Column.mac_address)
  ip_address ← ipv4_of (r Column.ip_address)
  lease_start ← integer_of (r Column.lease_start)
  lease_end ← integer_of (r Column.lease_end)
  hostname ← optional_text_of (r Column.hostname)
  some (record {
    id = id;
    subnet_id = subnet_id;
    mac_address = mac_address;
    ip_address = ip_address;
    lease_start = lease_start;
    lease_end = lease_end;
    hostname = hostname;
  })
