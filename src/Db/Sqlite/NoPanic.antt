-- ===== src/Db/Sqlite/NoPanic.antt =====
-- No query of crates/ndhcpd/src/db/sqlite.rs panics on a row that can be read.
use ndhcpd.Common.{
  ℕ, ◌≡◌, refl, ap, ◌∙◌, Option, none, some, List, [], ◌∷◌, map_value, ◌>>=◌, In, here, there, inl,
  inr, Result-cases,
}
use ndhcpd.Bytes.{Text}
use ndhcpd.Models.Ipv6Servers.{Ipv6Text}
use ndhcpd.Db.Sql.{Table, Column, Row, Condition, always, equals_lower, Select, project}
use ndhcpd.Db.Sql.Engine.{Engine, SqlLaws}
use ndhcpd.Db.Sqlite.Rows.{subnet_of_row, range_of_row, static_ip_of_row, lease_of_row}
use ndhcpd.Db.Sqlite.Answers.{read_rows, all_rows, first_row}
use ndhcpd.Db.Sqlite.Reading.{values_of}
use ndhcpd.Db.Sqlite.LeaseRows.{lease_of_row-project}
use ndhcpd.Db.Sqlite.Readable.{AllReadable}
use ndhcpd.Db.Sqlite.Dhcp.{
  by_id, of_subnet, select_subnets, select_ranges, select_static_ips, select_active_lease,
  select_active_leases, get_subnet, list_subnets, list_ranges, list_static_ips,
  get_static_ip_by_mac, get_active_lease, list_active_leases,
}
use ndhcpd.Db.Sqlite.Others.{
  ia_prefix_of_row, on_interface, select_ia_prefixes, get_ia_prefix, list_ia_prefixes,
}

read_rows_total :
    {A : Type 0} (f : Row → Option A) (rs : List Row)
    → ((r : Row) → In r rs → (x : A) × (f r ≡ some x))
    → read_rows f rs ≡ some (values_of f rs)
unfolding read_rows values_of
read_rows_total f [] h = refl
read_rows_total f (r ∷ rs) h =
    let (x, e) = h r (here refl) in
    rw (e, read_rows_total f rs (λ r' m. h r' (there m)), values_of) refl

module _ {S : Type 0} (engine : Engine S) (laws : SqlLaws engine) (s : S) {A : Type 0}
    (f : Row → Option A) (q : Select) (cut : (r : Row) → f (project q.columns r) ≡ f r)
    (readable : (r : Row) → In r (laws.rows q.table s) → (x : A) × (f r ≡ some x)) where
  all_rows_read : all_rows f (engine.fetch_all q s) ≡ map_value (values_of f) (engine.fetch_all q s)
  all_rows_read = elim (Result-cases (engine.fetch_all q s)) [
    | inr (e, g) ↦ rw g refl
    | inl (rs, g) ↦
        let total = read_rows_total f rs (λ r m.
          let (r', k, _, e) = (laws.selected q s rs r g).0 m in
          let (x, h) = readable r' k in (x, ap f e ∙ cut r' ∙ h)) in
        rw (g, total) refl
  ]

  first_row_read :
      first_row f (engine.fetch_optional q s) ≡ map_value (λ o. o >>= f) (engine.fetch_optional q s)
  first_row_read = elim (Result-cases (engine.fetch_optional q s)) [
    | inr (e, g) ↦ rw g refl
    | inl (none, g) ↦ rw g refl
    | inl (some r, g) ↦
        let (r', k, _, e) = laws.selected_some q s r g in
        let (x, h) = readable r' k in
        let read : f r ≡ some x = ap f e ∙ cut r' ∙ h in rw (g, read) refl
  ]

subnet_cut :
    (c : Condition) (r : Row)
    → subnet_of_row (project (select_subnets c).columns r) ≡ subnet_of_row r
unfolding subnet_of_row
subnet_cut c r = refl

range_cut :
    (c : Condition) (r : Row) → range_of_row (project (select_ranges c).columns r) ≡ range_of_row r
unfolding range_of_row
range_cut c r = refl

static_ip_cut :
    (c : Condition) (r : Row)
    → static_ip_of_row (project (select_static_ips c).columns r) ≡ static_ip_of_row r
unfolding static_ip_of_row
static_ip_cut c r = refl

ia_prefix_cut :
    (ipv6 : Ipv6Text) (c : Condition) (r : Row)
    → ia_prefix_of_row ipv6 (project (select_ia_prefixes c).columns r) ≡ ia_prefix_of_row ipv6 r
unfolding ia_prefix_of_row
ia_prefix_cut ipv6 c r = refl

module _ {S : Type 0} (engine : Engine S) (ipv6 : Ipv6Text) where
  -- Every query answers the values of the rows that the engine gives it.
  abbrev pub ReadsRows :
      (s : S) (i now : ℕ) (subnet_id : Option ℕ) (mac : Text) (interface : Option Text) → Type 0
  ReadsRows s i now subnet_id mac interface =
      (get_subnet engine i s
        ≡ map_value (λ o. o >>= subnet_of_row) (engine.fetch_optional (select_subnets (by_id i)) s))
      × (list_subnets engine s
          ≡ map_value (values_of subnet_of_row) (engine.fetch_all (select_subnets always) s))
      × (list_ranges engine subnet_id s
          ≡ map_value (values_of range_of_row)
              (engine.fetch_all (select_ranges (of_subnet subnet_id)) s))
      × (list_static_ips engine subnet_id s
          ≡ map_value (values_of static_ip_of_row)
              (engine.fetch_all (select_static_ips (of_subnet subnet_id)) s))
      × (get_static_ip_by_mac engine mac s
          ≡ map_value (λ o. o >>= static_ip_of_row)
              (engine.fetch_optional (select_static_ips (equals_lower Column.mac_address mac)) s))
      × (get_active_lease engine now mac s
          ≡ map_value (λ o. o >>= lease_of_row)
              (engine.fetch_optional (select_active_lease now mac) s))
      × (list_active_leases engine now s
          ≡ map_value (values_of lease_of_row) (engine.fetch_all (select_active_leases now) s))
      × (get_ia_prefix ipv6 engine i s
          ≡ map_value (λ o. o >>= ia_prefix_of_row ipv6)
              (engine.fetch_optional (select_ia_prefixes (by_id i)) s))
      × (list_ia_prefixes ipv6 engine interface s
          ≡ map_value (values_of (ia_prefix_of_row ipv6))
              (engine.fetch_all (select_ia_prefixes (on_interface interface)) s))

-- Where every row of every table can be read, no query of the database in SQLite panics: each one
-- that unwraps a row answers the values of the rows that the engine gives it, or the error of the
-- engine. The engine meets the laws of SQL.
pub AllReadable-ReadsRows :
    {S : Type 0} (engine : Engine S) (laws : SqlLaws engine) (ipv6 : Ipv6Text) (s : S) (i now : ℕ)
    (subnet_id : Option ℕ) (mac : Text) (interface : Option Text)
    → AllReadable engine laws ipv6 s
    → ReadsRows engine ipv6 s i now subnet_id mac interface
unfolding get_subnet list_subnets list_ranges list_static_ips get_static_ip_by_mac get_active_lease
    list_active_leases get_ia_prefix list_ia_prefixes
AllReadable-ReadsRows engine laws ipv6 s i now subnet_id mac interface all = (
  first_row_read engine laws s subnet_of_row (select_subnets (by_id i)) (subnet_cut (by_id i))
      (all Table.subnets),
  all_rows_read engine laws s subnet_of_row (select_subnets always) (subnet_cut always)
      (all Table.subnets),
  all_rows_read engine laws s range_of_row (select_ranges (of_subnet subnet_id))
      (range_cut (of_subnet subnet_id)) (all Table.dynamic_ranges),
  all_rows_read engine laws s static_ip_of_row (select_static_ips (of_subnet subnet_id))
      (static_ip_cut (of_subnet subnet_id)) (all Table.static_ips),
  first_row_read engine laws s static_ip_of_row
      (select_static_ips (equals_lower Column.mac_address mac))
      (static_ip_cut (equals_lower Column.mac_address mac)) (all Table.static_ips),
  first_row_read engine laws s lease_of_row (select_active_lease now mac) lease_of_row-project
      (all Table.leases),
  all_rows_read engine laws s lease_of_row (select_active_leases now) lease_of_row-project
      (all Table.leases),
  first_row_read engine laws s (ia_prefix_of_row ipv6) (select_ia_prefixes (by_id i))
      (ia_prefix_cut ipv6 (by_id i)) (all Table.ia_prefixes),
  all_rows_read engine laws s (ia_prefix_of_row ipv6) (select_ia_prefixes (on_interface interface))
      (ia_prefix_cut ipv6 (on_interface interface)) (all Table.ia_prefixes),
)
