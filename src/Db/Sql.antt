-- ===== src/Db/Sql.antt =====
-- The SQL of crates/ndhcpd/src/db/sqlite.rs over the tables of crates/ndhcpd/migrations: the
-- statements as data, and what their conditions and assignments mean for one row. The engine that
-- runs them is a parameter, in `Db.Sql.Engine`.
pub mod Engine
pub mod Store
use ndhcpd.Common.{
  ◌≡◌, refl, ℕ, Bool, true, false, ◌&&◌, Option, none, some, List, [], ◌∷◌, ltb, ◌==◌,
  if◌then◌else◌,
}
use ndhcpd.Bytes.{Text, text_eq, to_lowercase}

pub data Table : Type 0 where
  subnets dynamic_ranges static_ips leases ia_prefixes api_tokens : Table

-- The columns that the statements name.
pub data Column : Type 0 where
  id network netmask gateway dns_servers domain_name : Column
  subnet_id range_start range_end enabled : Column
  mac_address ip_address hostname lease_start lease_end : Column
  interface prefix prefix_len preferred_lifetime valid_lifetime dns_lifetime : Column
  name token_hash salt created_at last_used_at : Column

abbrev table_code : Table → ℕ
table_code Table.subnets = 0
table_code Table.dynamic_ranges = 1
table_code Table.static_ips = 2
table_code Table.leases = 3
table_code Table.ia_prefixes = 4
table_code Table.api_tokens = 5

abbrev column_code : Column → ℕ
column_code Column.id = 0
column_code Column.network = 1
column_code Column.netmask = 2
column_code Column.gateway = 3
column_code Column.dns_servers = 4
column_code Column.domain_name = 5
column_code Column.subnet_id = 6
column_code Column.range_start = 7
column_code Column.range_end = 8
column_code Column.enabled = 9
column_code Column.mac_address = 10
column_code Column.ip_address = 11
column_code Column.hostname = 12
column_code Column.lease_start = 13
column_code Column.lease_end = 14
column_code Column.interface = 15
column_code Column.prefix = 16
column_code Column.prefix_len = 17
column_code Column.preferred_lifetime = 18
column_code Column.valid_lifetime = 19
column_code Column.dns_lifetime = 20
column_code Column.name = 21
column_code Column.token_hash = 22
column_code Column.salt = 23
column_code Column.created_at = 24
column_code Column.last_used_at = 25

abbrev pub same_table : Table → Table → Bool
same_table t u = table_code t == table_code u

abbrev pub same_column : Column → Column → Bool
same_column c d = column_code c == column_code d

pub data Value : Type 0 where
  null : Value
  integer : ℕ → Value
  text : Text → Value

-- A column that the row's table does not have is never asked for.
abbrev pub Row : Type 0
Row = Column → Value

-- A condition of `WHERE`, its parameters bound.
pub data Condition : Type 0 where
  always : Condition
  equals : Column → Value → Condition
  equals_lower : Column → Text → Condition
  greater : Column → ℕ → Condition
  less : Column → ℕ → Condition
  both : Condition → Condition → Condition

-- `=`: nothing is equal to NULL.
abbrev pub value_eq : Value → Value → Bool
value_eq (integer m) (integer n) = m == n
value_eq (text s) (text t) = text_eq s t
value_eq _ _ = false

-- `LOWER` changes ASCII letters only.
abbrev pub lower_eq : Value → Text → Bool
lower_eq (text s) t = text_eq (to_lowercase s) (to_lowercase t)
lower_eq _ t = false

abbrev pub above : Value → ℕ → Bool
above (integer m) n = ltb n m
above _ n = false

abbrev pub below : Value → ℕ → Bool
below (integer m) n = ltb m n
below _ n = false

abbrev pub meets : Condition → Row → Bool
meets always r = true
meets (equals c v) r = value_eq (r c) v
meets (equals_lower c t) r = lower_eq (r c) t
meets (greater c n) r = above (r c) n
meets (less c n) r = below (r c) n
meets (both p q) r = meets p r && meets q r

-- A bound parameter or a literal, or `strftime('%s', 'now')`.
pub data Expr : Type 0 where
  bind : Value → Expr
  strftime_now : Expr

abbrev pub value_at : ℕ → Expr → Value
value_at now (bind v) = v
value_at now strftime_now = integer now

-- The row with the listed columns set, at the time `now`.
abbrev pub assign : ℕ → List (Column × Expr) → Row → Row
assign now [] r d = r d
assign now ((c, e) ∷ sets) r d = if same_column c d then value_at now e else assign now sets r d

-- The columns that `SELECT` lists.
abbrev pub project : List Column → Row → Row
project [] r d = null
project (c ∷ cs) r d = if same_column c d then r d else project cs r d

pub data Statement : Type 0 where
  insert : Table → List (Column × Expr) → Statement
  update : Table → List (Column × Expr) → Condition → Statement
  delete : Table → Condition → Statement

pub data Order : Type 0 where
  unordered : Order
  descending : Column → Order

pub record Select : Type 0 where
  pub columns : List Column
  pub table : Table
  pub condition : Condition
  pub order : Order

-- `INTEGER PRIMARY KEY AUTOINCREMENT`: the key of a new row. `static_ips` has none since the
-- migration 20240104000000.
abbrev pub key_of : Table → ℕ → List (Column × Expr) → List (Column × Expr)
key_of Table.static_ips i sets = sets
key_of _ i sets = (Column.id, bind (integer i)) ∷ sets

pub same_table-eq : (t u : Table) → same_table t u ≡ true → t ≡ u
same_table-eq Table.subnets Table.subnets h = refl
same_table-eq Table.subnets Table.dynamic_ranges h = cc
same_table-eq Table.subnets Table.static_ips h = cc
same_table-eq Table.subnets Table.leases h = cc
same_table-eq Table.subnets Table.ia_prefixes h = cc
same_table-eq Table.subnets Table.api_tokens h = cc
same_table-eq Table.dynamic_ranges Table.subnets h = cc
same_table-eq Table.dynamic_ranges Table.dynamic_ranges h = refl
same_table-eq Table.dynamic_ranges Table.static_ips h = cc
same_table-eq Table.dynamic_ranges Table.leases h = cc
same_table-eq Table.dynamic_ranges Table.ia_prefixes h = cc
same_table-eq Table.dynamic_ranges Table.api_tokens h = cc
same_table-eq Table.static_ips Table.subnets h = cc
same_table-eq Table.static_ips Table.dynamic_ranges h = cc
same_table-eq Table.static_ips Table.static_ips h = refl
same_table-eq Table.static_ips Table.leases h = cc
same_table-eq Table.static_ips Table.ia_prefixes h = cc
same_table-eq Table.static_ips Table.api_tokens h = cc
same_table-eq Table.leases Table.subnets h = cc
same_table-eq Table.leases Table.dynamic_ranges h = cc
same_table-eq Table.leases Table.static_ips h = cc
same_table-eq Table.leases Table.leases h = refl
same_table-eq Table.leases Table.ia_prefixes h = cc
same_table-eq Table.leases Table.api_tokens h = cc
same_table-eq Table.ia_prefixes Table.subnets h = cc
same_table-eq Table.ia_prefixes Table.dynamic_ranges h = cc
same_table-eq Table.ia_prefixes Table.static_ips h = cc
same_table-eq Table.ia_prefixes Table.leases h = cc
same_table-eq Table.ia_prefixes Table.ia_prefixes h = refl
same_table-eq Table.ia_prefixes Table.api_tokens h = cc
same_table-eq Table.api_tokens Table.subnets h = cc
same_table-eq Table.api_tokens Table.dynamic_ranges h = cc
same_table-eq Table.api_tokens Table.static_ips h = cc
same_table-eq Table.api_tokens Table.leases h = cc
same_table-eq Table.api_tokens Table.ia_prefixes h = cc
same_table-eq Table.api_tokens Table.api_tokens h = refl
