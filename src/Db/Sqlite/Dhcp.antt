-- ===== src/Db/Sqlite/Dhcp.antt =====
-- The operations of crates/ndhcpd/src/db/sqlite.rs on subnets, ranges, static addresses and leases,
-- each as the statement that it runs.
use ndhcpd.Common.{ℕ, Option, none, some, List, [], ◌∷◌}
use ndhcpd.Bytes.{Text}
use ndhcpd.Addr.{ipv4_to_string}
use ndhcpd.Models.{Subnet, DynamicRange, StaticIp, Lease}
use ndhcpd.Models.DnsServers.{dns_servers_to_string}
use ndhcpd.Db.Interface.{Query, Update}
use ndhcpd.Db.Sql.{
  Table, Column, integer, text, Expr, Condition, always, equals, equals_lower, greater, less, both,
  insert, update, delete, Select, unordered, descending,
}
use ndhcpd.Db.Sql.Engine.{Done, Engine}
use ndhcpd.Db.Sqlite.Rows.{subnet_of_row, range_of_row, static_ip_of_row, lease_of_row}
use ndhcpd.Db.Sqlite.Answers.{
  int, str, flag, optional_str, answer, nothing, rowid, all_rows, first_row,
}

abbrev pub by_id : ℕ → Condition
by_id i = equals Column.id (integer i)

-- `if let Some(subnet_id) = subnet_id { "… WHERE subnet_id = ?" } else { … }`
abbrev pub of_subnet : Option ℕ → Condition
of_subnet none = always
of_subnet (some i) = equals Column.subnet_id (integer i)

abbrev pub subnet_values : Subnet → List (Column × Expr)
subnet_values subnet =
    (Column.network, str (ipv4_to_string subnet.network))
    ∷ (Column.netmask, int subnet.netmask)
    ∷ (Column.gateway, str (ipv4_to_string subnet.gateway))
    ∷ (Column.dns_servers, str (dns_servers_to_string subnet.dns_servers))
    ∷ (Column.domain_name, optional_str subnet.domain_name)
    ∷ []

abbrev pub select_subnets : Condition → Select
select_subnets condition = record {
  columns =
      Column.id ∷ Column.network ∷ Column.netmask ∷ Column.gateway ∷ Column.dns_servers
      ∷ Column.domain_name ∷ [];
  table = Table.subnets;
  condition = condition;
  order = unordered;
}

abbrev pub range_values : DynamicRange → List (Column × Expr)
range_values range =
    (Column.subnet_id, int range.subnet_id)
    ∷ (Column.range_start, str (ipv4_to_string range.range_start))
    ∷ (Column.range_end, str (ipv4_to_string range.range_end))
    ∷ (Column.enabled, flag range.enabled)
    ∷ []

abbrev pub select_ranges : Condition → Select
select_ranges condition = record {
  columns =
      Column.id ∷ Column.subnet_id ∷ Column.range_start ∷ Column.range_end ∷ Column.enabled ∷ [];
  table = Table.dynamic_ranges;
  condition = condition;
  order = unordered;
}

abbrev pub static_ip_values : StaticIp → List (Column × Expr)
static_ip_values static_ip =
    (Column.ip_address, str (ipv4_to_string static_ip.ip_address))
    ∷ (Column.subnet_id, int static_ip.subnet_id)
    ∷ (Column.mac_address, str static_ip.mac_address)
    ∷ (Column.hostname, optional_str static_ip.hostname)
    ∷ []

abbrev pub select_static_ips : Condition → Select
select_static_ips condition = record {
  columns = Column.subnet_id ∷ Column.mac_address ∷ Column.ip_address ∷ Column.hostname ∷ [];
  table = Table.static_ips;
  condition = condition;
  order = unordered;
}

abbrev pub lease_values : Lease → List (Column × Expr)
lease_values lease =
    (Column.subnet_id, int lease.subnet_id)
    ∷ (Column.mac_address, str lease.mac_address)
    ∷ (Column.ip_address, str (ipv4_to_string lease.ip_address))
    ∷ (Column.lease_start, int lease.lease_start)
    ∷ (Column.lease_end, int lease.lease_end)
    ∷ (Column.hostname, optional_str lease.hostname)
    ∷ []

abbrev pub lease_columns : List Column
lease_columns =
    Column.id ∷ Column.subnet_id ∷ Column.mac_address ∷ Column.ip_address ∷ Column.lease_start
    ∷ Column.lease_end ∷ Column.hostname ∷ []

-- `… WHERE LOWER(mac_address) = LOWER(?) AND lease_end > ? ORDER BY lease_end DESC LIMIT 1`
abbrev pub select_active_lease : ℕ → Text → Select
select_active_lease now mac = record {
  columns = lease_columns;
  table = Table.leases;
  condition = both (equals_lower Column.mac_address mac) (greater Column.lease_end now);
  order = descending Column.lease_end;
}

abbrev pub select_active_leases : ℕ → Select
select_active_leases now = record {
  columns = lease_columns;
  table = Table.leases;
  condition = greater Column.lease_end now;
  order = unordered;
}

module _ {S : Type 0} (engine : Engine S) where
  unfoldable pub create_subnet : Subnet → Update S ℕ
  create_subnet subnet s =
      answer rowid (engine.execute (insert Table.subnets (subnet_values subnet)) s)

  unfoldable pub get_subnet : ℕ → Query S (Option Subnet)
  get_subnet i s = first_row subnet_of_row (engine.fetch_optional (select_subnets (by_id i)) s)

  unfoldable pub list_subnets : Query S (List Subnet)
  list_subnets s = all_rows subnet_of_row (engine.fetch_all (select_subnets always) s)

  unfoldable pub update_subnet : ℕ → Subnet → Update S (Unit {0})
  update_subnet i subnet s =
      answer nothing (engine.execute (update Table.subnets (subnet_values subnet) (by_id i)) s)

  unfoldable pub delete_subnet : ℕ → Update S (Unit {0})
  delete_subnet i s = answer nothing (engine.execute (delete Table.subnets (by_id i)) s)

  unfoldable pub create_range : DynamicRange → Update S ℕ
  create_range range s =
      answer rowid (engine.execute (insert Table.dynamic_ranges (range_values range)) s)

  unfoldable pub list_ranges : Option ℕ → Query S (List DynamicRange)
  list_ranges subnet_id s =
      all_rows range_of_row (engine.fetch_all (select_ranges (of_subnet subnet_id)) s)

  unfoldable pub delete_range : ℕ → Update S (Unit {0})
  delete_range i s = answer nothing (engine.execute (delete Table.dynamic_ranges (by_id i)) s)

  unfoldable pub create_static_ip : StaticIp → Update S (Unit {0})
  create_static_ip static_ip s =
      answer nothing (engine.execute (insert Table.static_ips (static_ip_values static_ip)) s)

  unfoldable pub list_static_ips : Option ℕ → Query S (List StaticIp)
  list_static_ips subnet_id s =
      all_rows static_ip_of_row (engine.fetch_all (select_static_ips (of_subnet subnet_id)) s)

  unfoldable pub get_static_ip_by_mac : Text → Query S (Option StaticIp)
  get_static_ip_by_mac mac s =
      first_row static_ip_of_row
        (engine.fetch_optional (select_static_ips (equals_lower Column.mac_address mac)) s)

  unfoldable pub update_static_ip_hostname : Text → Option Text → Update S (Unit {0})
  update_static_ip_hostname ip hostname s = answer nothing (
      engine.execute
        (update Table.static_ips ((Column.hostname, optional_str hostname) ∷ [])
          (equals Column.ip_address (text ip)))
        s)

  unfoldable pub delete_static_ip : Text → Update S (Unit {0})
  delete_static_ip ip s =
      answer nothing
        (engine.execute (delete Table.static_ips (equals Column.ip_address (text ip))) s)

  unfoldable pub create_lease : Lease → Update S ℕ
  create_lease lease s = answer rowid (engine.execute (insert Table.leases (lease_values lease)) s)

  unfoldable pub get_active_lease : ℕ → Text → Query S (Option Lease)
  get_active_lease now mac s =
      first_row lease_of_row (engine.fetch_optional (select_active_lease now mac) s)

  unfoldable pub list_active_leases : ℕ → Query S (List Lease)
  list_active_leases now s = all_rows lease_of_row (engine.fetch_all (select_active_leases now) s)

  unfoldable pub expire_lease : ℕ → Update S (Unit {0})
  expire_lease i s = answer nothing (engine.execute (delete Table.leases (by_id i)) s)

  unfoldable pub delete_expired_leases : ℕ → Update S ℕ
  delete_expired_leases now s =
      answer (λ (d : Done). d.rows_affected)
        (engine.execute (delete Table.leases (less Column.lease_end now)) s)
